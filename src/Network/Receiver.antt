-- ===== src/Network/Receiver.antt =====
-- What the receiver's logs hold, whatever it hears of the sender's announcements.
use ip_ndn_stack_cpp.Prelude.{
  ℕ, zero, suc, ◌<◌, ◌≤◌, ◌≡◌, refl, sym, ap, ◌∙◌, ◌⊎◌, inl, inr, List, [], ◌∷◌, ◌++◌, Bool, true,
  false, get_elem?-append, All, All-append, Bool-cases, some, arith, if◌then◌else◌,
}
use ip_ndn_stack_cpp.Text.{Bytes, slash, Lacks}
use ip_ndn_stack_cpp.Word.{int_limit, int_to_string, inc_int}
use ip_ndn_stack_cpp.Boost.{Boost}
use ip_ndn_stack_cpp.Naming.{build_name}
use ip_ndn_stack_cpp.Naming.Injective.{Flow, flow_data_name}
use ip_ndn_stack_cpp.GuessSet
use ip_ndn_stack_cpp.Ndn.State.{Ndn, Request, Filter, express_interest, pure}
use ip_ndn_stack_cpp.Ndn.Handlers.{
  guess_one, guess_rounds, forget_guess, num_of_guest, filters_of, deal_on_interest, on_interest,
}
use ip_ndn_stack_cpp.Ndn.Delivery.{accepted, all_accepted}
use ip_ndn_stack_cpp.Ndn.Requests.{flow_pre_name, guess_base, tcp_pre_runs, on_other_pre-asks}
use ip_ndn_stack_cpp.Ndn.Faults.{tcp_pre_past_int}
use ip_ndn_stack_cpp.Network.Kinds.{fifth, some-injective, IsKind, flow-IsKind, other-IsKind}
use ip_ndn_stack_cpp.Network.Sender.{IsAnnouncement, announces_flow, announces_other}

-- A request for data carries the flag of the kind that its name has.
pub record IsAsked (r : Request) : Type 0 where
  pub for_data : r.is_pre ≡ false
  pub kind : IsKind r.is_tcp r.name

abbrev pub AllAsked : Ndn → Type 0
AllAsked s = All IsAsked s.expressed

express-AllAsked :
    (name : Bytes) (tcp : Bool) (s : Ndn)
    → IsKind tcp name
    → AllAsked s
    → AllAsked (express_interest name false tcp s)
unfolding express_interest
express-AllAsked name tcp s k h =
    All-append IsAsked s.expressed _ h (record { for_data = refl; kind = k }, tt)

forget-expressed : (name : Bytes) (s : Ndn) → (forget_guess name s).expressed ≡ s.expressed
unfolding forget_guess
forget-expressed name s = ground arith

guess_one-AllAsked :
    (name : Bytes) (s : Ndn) → IsKind true name → AllAsked s → AllAsked (guess_one name s)
unfolding guess_one
guess_one-AllAsked name s k h = elim (Bool-cases (GuessSet.save_concurrence name s.guess_table).1) [
  | inl fresh ↦ rw fresh (express-AllAsked name true _ k h)
  | inr old ↦ rw old h
]

guess_rounds-AllAsked :
    (g : Bytes) (rounds num : ℕ) (s : Ndn)
    → ((n : ℕ) → IsKind true (g ++ int_to_string n))
    → AllAsked s
    → AllAsked (guess_rounds g rounds num s)
unfolding guess_rounds
guess_rounds-AllAsked g zero num s k h = h
guess_rounds-AllAsked g (suc rounds) num s k h =
    guess_rounds-AllAsked g rounds (inc_int num) (guess_one (g ++ int_to_string (inc_int num)) s) k
      (guess_one-AllAsked _ s (k (inc_int num)) h)

guess_base-IsKind : (f : Flow) (n : ℕ) → IsKind true (guess_base f ++ int_to_string n)
unfolding IsKind guess_base
guess_base-IsKind f n = refl

-- The filters that `start` sets carry the flags of their kind: the fifth byte of a prefix for
-- pre-requests is that of the announcements it is for.
unfoldable pub IsFitting : Filter → Type 0
IsFitting f = f.pre ≡ true → fifth f.prefix ≡ some (if f.tcp then b'T' else b'p')

accepted-IsFitting :
    (accepts : Bytes → Bool) (fs : List Filter)
    → All IsFitting fs
    → All IsFitting (accepted accepts fs)
unfolding accepted
accepted-IsFitting accepts [] h = tt
accepted-IsFitting accepts (f ∷ fs) (hf, h) = elim (Bool-cases (accepts f.prefix)) [
  | inl good ↦ rw good (hf, accepted-IsFitting accepts fs h)
  | inr bad ↦ rw bad tt
]

filters_of-IsFitting : (ip : Bytes) → All IsFitting (filters_of ip)
unfolding IsFitting
filters_of-IsFitting ip = (λ e. refl, (λ e. cc, (λ e. refl, (λ e. cc, tt))))

pub all_accepted-IsFitting :
    (accepts : Bytes → Bool) (ips : List Bytes) → All IsFitting (all_accepted accepts ips)
unfolding all_accepted
all_accepted-IsFitting accepts [] = tt
all_accepted-IsFitting accepts (ip ∷ ips) =
    All-append IsFitting (accepted accepts (filters_of ip)) (all_accepted accepts ips)
      (accepted-IsFitting accepts (filters_of ip) (filters_of-IsFitting ip))
      (all_accepted-IsFitting accepts ips)

flow_pre-fifth : (f : Flow) (n : ℕ) → fifth (flow_pre_name f n) ≡ some b'T'
unfolding build_name
flow_pre-fifth f n = refl

other_pre-fifth :
    (f : Flow) (n : ℕ) (uid : Bytes)
    → fifth (build_name f.src_ip f.dst_ip f.src_port f.dst_port 1 n uid).0 ≡ some b'p'
unfolding build_name
other_pre-fifth f n uid = refl

-- Whether it announces a packet of a flow.
abbrev pub is_of_flow : {r : Request} → IsAnnouncement r → Bool
is_of_flow (announces_flow f n e) = true
is_of_flow (announces_other f n uid l e) = false

-- A filter for pre-requests that an announcement reaches is one for its kind.
pub fitting-tcp :
    (r : Request) (f : Filter) (rest : Bytes) (a : IsAnnouncement r)
    → IsFitting f
    → r.name ≡ f.prefix ++ rest
    → f.pre ≡ true
    → f.tcp ≡ is_of_flow a
unfolding IsFitting
fitting-tcp r f rest a fit e p = by_flag f.tcp refl a
  where
    same_fifth : (c d : ℕ) → fifth f.prefix ≡ some c → fifth r.name ≡ some d → c ≡ d
    same_fifth c d hc hd =
        some-injective (sym (get_elem?-append f.prefix rest 4 c hc) ∙ ap fifth (sym e) ∙ hd)

    by_flag : (tcp : Bool) → f.tcp ≡ tcp → (a : IsAnnouncement r) → tcp ≡ is_of_flow a
    by_flag true t (announces_flow g n e') = refl
    by_flag true t (announces_other g n uid l e') = absurd (
        omega
          (arith, same_fifth b'T' b'p' (fit p ∙ rw t refl) (ap fifth e' ∙ other_pre-fifth g n uid)))
    by_flag false t (announces_flow g n e') =
        absurd (
          omega
            (arith, same_fifth b'p' b'T' (fit p ∙ rw t refl) (ap fifth e' ∙ flow_pre-fifth g n)))
    by_flag false t (announces_other g n uid l e') = refl

module _ (boost : Boost) where
  tcp_pre-AllAsked :
      (f : Flow) (n : ℕ) (s : Ndn)
      → AllAsked s
      → AllAsked (on_interest boost (flow_pre_name f n) true true s).1
  unfolding on_interest deal_on_interest
  tcp_pre-AllAsked f n s h =
      let name = flow_data_name f n in
      let asked = forget_guess name (express_interest name false true s) in
      let first : AllAsked asked =
        rw (forget-expressed name (express_interest name false true s))
          (express-AllAsked name true s (flow-IsKind f n) h) in
      elim (below_or_not n) [
        | inl lt ↦
            rw (tcp_pre_runs boost f n s lt) (
              guess_rounds-AllAsked (guess_base f) num_of_guest n asked (guess_base-IsKind f) first)
        | inr ge ↦ rw (tcp_pre_past_int boost f n s ge) first
      ]
    where
      below_or_not : (n : ℕ) → (n < int_limit) ⊎ (int_limit ≤ n)
      below_or_not n = omega arith

  other_pre-AllAsked :
      (f : Flow) (n : ℕ) (uid : Bytes) (s : Ndn)
      → Lacks slash uid
      → AllAsked s
      → AllAsked
          (on_interest boost
            (build_name f.src_ip f.dst_ip f.src_port f.dst_port 1 n uid).0
            true
            false
            s).1
  other_pre-AllAsked f n uid s l h =
      rw (on_other_pre-asks boost f n uid s l) (express-AllAsked _ false s (other-IsKind f n uid) h)

  not_pre-AllAsked :
      (name : Bytes) (tcp : Bool) (s : Ndn)
      → AllAsked s
      → AllAsked (on_interest boost name false tcp s).1
  unfolding on_interest deal_on_interest pure
  not_pre-AllAsked name tcp s h = h

  -- An announcement that reaches a filter of its kind only makes requests for data of its kind.
  pub on_interest-AllAsked :
      (r : Request) (f : Filter) (rest : Bytes) (s : Ndn)
      → IsAnnouncement r
      → IsFitting f
      → r.name ≡ f.prefix ++ rest
      → AllAsked s
      → AllAsked (on_interest boost r.name f.pre f.tcp s).1
  on_interest-AllAsked r f rest s a fit e h = wants f.pre refl
    where
      by_kind : (a : IsAnnouncement r) → AllAsked (on_interest boost r.name true (is_of_flow a) s).1
      by_kind (announces_flow g n e') = rw e' (tcp_pre-AllAsked g n s h)
      by_kind (announces_other g n uid l e') = rw e' (other_pre-AllAsked g n uid s l h)

      wants : (pre : Bool) → f.pre ≡ pre → AllAsked (on_interest boost r.name pre f.tcp s).1
      wants true p = rw (fitting-tcp r f rest a fit e p) (by_kind a)
      wants false p = not_pre-AllAsked r.name f.tcp s h
