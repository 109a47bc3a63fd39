-- ===== src/Main/Runs.antt =====
-- What main (main.cpp) does where its helpers open: the filters of the NDN side and the packets that
-- the capture publishes, in whatever order the two threads come.
use ip_ndn_stack_cpp.Prelude.{
  ℕ, ◌≡◌, ◌<◌, refl, sym, ap, ◌∙◌, List, [], ◌++◌, length, Bool, true, false, Option, not, ◌&&◌,
}
use mathlib.Core.Path.{subst}
use ip_ndn_stack_cpp.Text.{Bytes}
use ip_ndn_stack_cpp.Word.{int_limit}
use ip_ndn_stack_cpp.Device.{Libpcap, Device, no_device}
use ip_ndn_stack_cpp.Settings.{JsonCpp, Startup, done, init_ndn, addresses}
use ip_ndn_stack_cpp.Settings.Addresses.{HasTexts, init_ndn-start}
use ip_ndn_stack_cpp.Ndn.State.{Ndn, Filter}
use ip_ndn_stack_cpp.Ndn.Delivery.{all_accepted, start-filters}
use ip_ndn_stack_cpp.Capture.{Host}
use ip_ndn_stack_cpp.Capture.Fresh.{published_names, expected_names}
use ip_ndn_stack_cpp.Capture.Loop.{
  Capturer, Completion, async_read, before_error, no_error, captured,
}
use ip_ndn_stack_cpp.Capture.Loop
use ip_ndn_stack_cpp.Capture.Loop.Deals.{start-publishes, start-deals}
use ip_ndn_stack_cpp.Capture.Loop.Order.{
  registered, with_registered, start-registered, start-append,
}
use ip_ndn_stack_cpp.Main.{
  Process, End, returned, running, deal_ndn, run_both, open_lib_pcap, make_lib_pcap, blocks_while,
  service_returns, after_ndn, try_block, main, end_of, destroy, scope, with_device, with_ndn,
  bind_tables, assigned, continue, update, ◌>>◌, close_capture, join_thread, join_ndn,
}
use ip_ndn_stack_cpp.Main.Construct.{System, construct_ndn}
use ip_ndn_stack_cpp.Main.Outcome.{begin}

deal_ndn-registered :
    (accepts : Bytes → Bool) (ips : List Bytes) (fs : List Filter) (c : Capturer)
    → deal_ndn accepts (with_registered ips fs c)
      ≡ with_registered ips (fs ++ all_accepted accepts ips) c
unfolding deal_ndn
deal_ndn-registered accepts ips fs c =
    ap (λ (s : Ndn). record c { host = record c.host { ndn = s } })
      (start-filters accepts (record c.host.ndn { register_ip = ips; filters = fs }))

-- However many reads complete before the thread of the NDN side sets its filters, the outcome is as
-- if it set them first.
pub start-deal_ndn :
    (accepts : Bytes → Bool) (before after : List Completion) (c : Capturer)
    → Loop.start after (deal_ndn accepts (Loop.start before c))
      ≡ Loop.start (before ++ after) (deal_ndn accepts c)
start-deal_ndn accepts before after c =
    let ips = c.host.ndn.register_ip in
    let fs = c.host.ndn.filters in
    let set = fs ++ all_accepted accepts ips in
    ap (λ x. Loop.start after (deal_ndn accepts x)) (start-registered before c ips fs)
    ∙ ap (Loop.start after) (deal_ndn-registered accepts ips fs (Loop.start before c))
    ∙ start-registered after (Loop.start before c) ips set
    ∙ ap (with_registered ips set) (start-append before after c)
    ∙ sym (start-registered (before ++ after) c ips set)
    ∙ ap (Loop.start (before ++ after)) (sym (deal_ndn-registered accepts ips fs c))

-- The capture when its constructor has returned and initNDN has registered `l` too.
ready : Device → List Bytes → Host → Capturer
ready d l h = record {
  host = registered (h.ndn.register_ip ++ l) h.ndn.filters h;
  socket_open = true;
  waiting = true;
  device = d;
}

-- The service of a ready capture, from after the thread set its filters.
ran : (Bytes → Bool) → List Completion → Device → List Bytes → Host → Capturer
ran accepts es d l h =
    let ips = h.ndn.register_ip ++ l in
    with_registered ips (h.ndn.filters ++ all_accepted accepts ips)
      (Loop.start es (record (ready d l h) { host = h }))

run_both-ready :
    (accepts : Bytes → Bool) (before after : List Completion) (d : Device) (l : List Bytes)
    (h : Host)
    → Loop.start after (deal_ndn accepts (Loop.start before (ready d l h)))
      ≡ ran accepts (before ++ after) d l h
unfolding ready ran
run_both-ready accepts before after d l h =
    let ips = h.ndn.register_ip ++ l in
    let c = record (ready d l h) { host = h } in
    start-deal_ndn accepts before after (ready d l h)
    ∙ ap (Loop.start (before ++ after)) (deal_ndn-registered accepts ips h.ndn.filters c)
    ∙ start-registered (before ++ after) c ips (h.ndn.filters ++ all_accepted accepts ips)

abbrev pub returns_if : Bool → End
returns_if true = returned
returns_if false = running

not_twice :
    (n a b : Bool)
    → returns_if (not n && (not (not a) && not (not b))) ≡ returns_if (not n && (a && b))
not_twice n true true = refl
not_twice n true false = refl
not_twice n false b = refl

module _ (lib : Libpcap) (sys : System) (json : JsonCpp) (files : Bytes → Option Bytes)
    (path : Bytes) where
  -- The try block ends so, and leaves the host like this.
  Leaves : End → Host → Startup (Unit {0}) × Process → Type 0
  Leaves ends h x = (end_of lib sys json files path x.0 ≡ ends) × (x.1.capturer.host ≡ h)

  -- The end of the scope: the service returns or not, and the joins return or not.
  service-Leaves :
      (waits serves stays b : Bool) (p : Process) (h : Host)
      → waits ≡ b
      → p.capturer.host ≡ h
      → Leaves (returns_if (not b && (not serves && not stays))) h (
          destroy lib sys json files path (
            continue
              (λ u.
                blocks_while lib sys json files path serves
                >> (blocks_while lib sys json files path stays
                    >> update (close_capture lib sys json files path)))
              (blocks_while lib sys json files path waits p)))
  unfolding Leaves end_of Loop.close
  service-Leaves true serves stays b p h w e =
      (ap (λ x. returns_if (not x && (not serves && not stays))) w, e)
  service-Leaves false true stays b p h w e =
      (ap (λ x. returns_if (not x && (not true && not stays))) w, e)
  service-Leaves false false true b p h w e =
      (ap (λ x. returns_if (not x && (not false && not true))) w, e)
  service-Leaves false false false b p h w e =
      (ap (λ x. returns_if (not x && (not false && not false))) w, e)

  -- How main ends once its helpers are open: it returns where some read failed and both joins return.
  abbrev end_after : List Completion → End
  end_after es =
      returns_if (not (no_error es) && (not (not sys.face_returns) && not (not sys.join_returns)))

  -- The scope of the capture, after initNDN ended so.
  scope-Leaves :
      (accepts : Bytes → Bool) (before after : List Completion) (d : Device) (l : List Bytes)
      (h : Host)
      → init_ndn json files path h.ndn
        ≡ (done tt, record h.ndn { register_ip = h.ndn.register_ip ++ l })
      → Leaves (end_after (before ++ after)) (ran accepts (before ++ after) d l h).host (
          destroy lib sys json files path
            (scope lib sys json files path accepts before after (with_device d (begin h))))
  unfolding async_read ready
  scope-Leaves accepts before after d l h registers =
      let p =
        bind_tables lib sys json files path
          (assigned lib sys json files path (with_device d (begin h))) in
      let ends = run_both-ready accepts before after d l h in
      let c = record (ready d l h) { host = h } in
      subst
        (λ (x : Startup (Unit {0}) × Ndn).
          Leaves (end_after (before ++ after)) (ran accepts (before ++ after) d l h).host (
            destroy lib sys json files path (
              continue
                (λ u.
                  update (run_both lib sys json files path accepts before after)
                  >> (service_returns lib sys json files path
                      >> (join_thread lib sys json files path
                          >> (join_ndn lib sys json files path
                              >> update (close_capture lib sys json files path)))))
                (x.0, with_ndn x.1 p))))
        (sym registers)
        (service-Leaves _ _ _ (no_error (before ++ after)) _
          (ran accepts (before ++ after) d l h).host
          (ap (λ (x : Capturer). x.waiting) ends
            ∙ unfold ran in ap (λ (x : Capturer). x.waiting) (start-deals (before ++ after) c refl))
          (ap (λ (x : Capturer). x.host) ends))

  main-ready :
      (accepts : Bytes → Bool) (before after : List Completion) (h : Host) (fd : ℕ) (d : Device)
      (l : List Bytes)
      → construct_ndn sys ≡ done tt
      → open_lib_pcap lib sys json files path no_device ≡ (done fd, d)
      → init_ndn json files path h.ndn
        ≡ (done tt, record h.ndn { register_ip = h.ndn.register_ip ++ l })
      → ((main lib sys json files path accepts before after (begin h)).0
          ≡ end_after (before ++ after))
        × ((main lib sys json files path accepts before after (begin h)).1.capturer.host
            ≡ (ran accepts (before ++ after) d l h).host)
  unfolding main try_block make_lib_pcap Leaves
  main-ready accepts before after h fd d l made opens registers =
      let host = (ran accepts (before ++ after) d l h).host in
      subst
        (λ o.
          Leaves (end_after (before ++ after)) host
            (after_ndn lib sys json files path o accepts before after (begin h)))
        (sym made)
        (subst
          (λ (x : Startup ℕ × Device). Leaves (end_after (before ++ after)) host (
            continue
              (λ fd q.
                destroy lib sys json files path
                  (scope lib sys json files path accepts before after q))
              (x.0, with_device x.1 (begin h))))
          (sym opens) (scope-Leaves accepts before after d l h registers))

  -- If NDNHelper is constructed, the settings open the capture and give the addresses `l`, the host
  -- has numbered and published nothing, and fewer than 2^31 reads complete, then main returns where
  -- some read fails, the event loop of the face comes back and pthread_join comes back, and
  -- otherwise goes on waiting. Either way, what is published, in order, are the names that counting
  -- the packets of each flow gives for the tuples of the frames before the first failed read, those
  -- of 8600 bytes or more left out; and the filters set are those of all registered addresses, for
  -- each up to the first one at which the face throws. It does not matter after which of the reads
  -- the filters are set; no interest and no data comes meanwhile.
  pub main-publishes :
      (accepts : Bytes → Bool) (before after : List Completion) (h : Host) (fd : ℕ) (d : Device)
      (ips : json.Value) (l : List Bytes)
      → construct_ndn sys ≡ done tt
      → open_lib_pcap lib sys json files path no_device ≡ (done fd, d)
      → addresses json files path ≡ done ips
      → json.size ips ≡ length l
      → HasTexts json ips 0 l
      → h.sequence_table ≡ []
      → h.ndn.published ≡ []
      → length (before ++ after) < int_limit
      → let r = main lib sys json files path accepts before after (begin h) in
        (r.0
          ≡ returns_if (not (no_error (before ++ after)) && (sys.face_returns && sys.join_returns)))
        × (published_names r.1.capturer.host
            ≡ expected_names [] (captured (before_error (before ++ after)) h.globals))
        × (r.1.capturer.host.ndn.filters
            ≡ h.ndn.filters ++ all_accepted accepts (h.ndn.register_ip ++ l))
  unfolding ran
  main-publishes accepts before after h fd d ips l made opens has size texts table none_yet lt =
      let registers = (init_ndn-start json files path ips l accepts h.ndn has size texts).0 in
      let (ends, host) = main-ready accepts before after h fd d l made opens registers in
      let c = record (ready d l h) { host = h } in
      (
        ends ∙ not_twice (no_error (before ++ after)) sys.face_returns sys.join_returns,
        ap published_names host
            ∙ start-publishes (before ++ after) c (unfold ready in refl) table none_yet lt,
        ap (λ (x : Host). x.ndn.filters) host,
      )
