-- ===== src/Settings/Addresses.antt =====
-- The addresses that initNDN (helper/NDNHelper.cpp) takes from the settings, and the filters that
-- start sets for them.
use ip_ndn_stack_cpp.Prelude.{
  ℕ, suc, ◌+◌, ◌-◌, ◌<◌, ◌≡◌, ap, ap₂, ◌∙◌, List, [], ◌∷◌, ◌++◌, length, append-nil, append_assoc,
  Bool, Option, arith,
}
use ip_ndn_stack_cpp.Text.{Bytes}
use ip_ndn_stack_cpp.Ndn.State.{Ndn}
use ip_ndn_stack_cpp.Ndn.Handlers.{start}
use ip_ndn_stack_cpp.Ndn.Delivery.{all_accepted, start-filters}
use ip_ndn_stack_cpp.Settings.{
  JsonCpp, Startup, done, throws, text_at, push_back, with_addresses, register_ips, addresses,
  init_ndn,
}

module _ (json : JsonCpp) where
  -- From its element `i` on, `ips` has these texts.
  unfoldable pub HasTexts : json.Value → ℕ → List Bytes → Type 0
  HasTexts ips i [] = Unit
  HasTexts ips i (ip ∷ l) = (text_at json ips i ≡ done ip) × HasTexts ips (i + 1) l

  register_ips-next :
      (ips : json.Value) (ip : Bytes) (n i : ℕ) (s : Ndn)
      → text_at json ips i ≡ done ip
      → register_ips json ips (suc n) i s
        ≡ register_ips json ips n (i + 1) (record s { register_ip = s.register_ip ++ ip ∷ [] })
  unfolding register_ips
  register_ips-next ips ip n i s h = ap (λ t. push_back t (register_ips json ips n (i + 1)) s) h

  register_ips-throws :
      (ips : json.Value) (n i : ℕ) (s : Ndn)
      → text_at json ips i ≡ throws
      → register_ips json ips (suc n) i s ≡ (throws, s)
  unfolding register_ips
  register_ips-throws ips n i s h = ap (λ t. push_back t (register_ips json ips n (i + 1)) s) h

  register_ips-texts :
      (ips : json.Value) (l : List Bytes) (n i : ℕ) (s : Ndn)
      → HasTexts ips i l
      → register_ips json ips (length l + n) i s
        ≡ register_ips json ips n (i + length l) (record s { register_ip = s.register_ip ++ l })
  unfolding HasTexts
  register_ips-texts ips [] n i s h =
      rw append-nil (ap₂ (λ a b. register_ips json ips a b s) (omega arith) (omega arith))
  register_ips-texts ips (ip ∷ l) n i s (h, hs) =
      ap (λ k. register_ips json ips k i s) (omega arith)
      ∙ register_ips-next ips ip (length l + n) i s h
      ∙ register_ips-texts ips l n (i + 1) (record s { register_ip = s.register_ip ++ ip ∷ [] }) hs
      ∙ ap₂ (λ k x. register_ips json ips n k (record s { register_ip = x })) (omega arith)
          (append_assoc s.register_ip (ip ∷ []) l)

module _ (json : JsonCpp) (files : Bytes → Option Bytes) where
  init_ndn-addresses :
      (path : Bytes) (ips : json.Value) (s : Ndn)
      → addresses json files path ≡ done ips
      → init_ndn json files path s ≡ register_ips json ips (json.size ips) 0 s
  unfolding init_ndn
  init_ndn-addresses path ips s opens =
      ap (λ t. with_addresses t (λ v. register_ips json v (json.size v) 0) s) opens

  init_ndn-texts :
      (path : Bytes) (ips : json.Value) (l : List Bytes) (s : Ndn)
      → addresses json files path ≡ done ips
      → json.size ips ≡ length l
      → HasTexts json ips 0 l
      → init_ndn json files path s ≡ (done tt, record s { register_ip = s.register_ip ++ l })
  unfolding register_ips
  init_ndn-texts path ips l s opens size texts =
      init_ndn-addresses path ips s opens
      ∙ ap (λ n. register_ips json ips n 0 s) (omega (arith, size))
      ∙ register_ips-texts json ips l 0 0 s texts

  -- If the settings open and their member registerIp has the elements `l`, all of which read as texts,
  -- initNDN returns with these added to the registered addresses in order, and start then sets the
  -- filters of all of them, for each address up to the first one at which the face throws.
  pub init_ndn-start :
      (path : Bytes) (ips : json.Value) (l : List Bytes) (accepts : Bytes → Bool) (s : Ndn)
      → addresses json files path ≡ done ips
      → json.size ips ≡ length l
      → HasTexts json ips 0 l
      → (init_ndn json files path s ≡ (done tt, record s { register_ip = s.register_ip ++ l }))
        × (start accepts (init_ndn json files path s).1 ≡ record s {
          register_ip = s.register_ip ++ l;
          filters = s.filters ++ all_accepted accepts (s.register_ip ++ l);
        })
  init_ndn-start path ips l accepts s opens size texts =
      let registered = init_ndn-texts path ips l s opens size texts in
      (
        registered,
        ap (λ (x : Startup (Unit {0}) × Ndn). start accepts x.1) registered
            ∙ start-filters accepts (record s { register_ip = s.register_ip ++ l }),
      )

  -- If the settings open and their member registerIp has more elements than the texts `l` that it
  -- begins with, and the one after these does not read as a text, initNDN throws with the texts
  -- registered.
  pub init_ndn-throws :
      (path : Bytes) (ips : json.Value) (l : List Bytes) (s : Ndn)
      → addresses json files path ≡ done ips
      → length l < json.size ips
      → HasTexts json ips 0 l
      → text_at json ips (length l) ≡ throws
      → init_ndn json files path s ≡ (throws, record s { register_ip = s.register_ip ++ l })
  init_ndn-throws path ips l s opens lt texts bad =
      let left = json.size ips - suc (length l) in
      let s' = record s { register_ip = s.register_ip ++ l } in
      init_ndn-addresses path ips s opens
      ∙ ap (λ n. register_ips json ips n 0 s) (omega (arith, lt))
      ∙ register_ips-texts json ips l (suc left) 0 s texts
      ∙ ap (λ i. register_ips json ips (suc left) i s') (omega arith)
      ∙ register_ips-throws json ips left (length l) s' bad
