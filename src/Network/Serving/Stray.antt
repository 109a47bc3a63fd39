-- ===== src/Network/Serving/Stray.antt =====
-- What an interest of anyone else does: one name ends the receiving host's part, whatever it was doing.
use ip_ndn_stack_cpp.Prelude.{
  ℕ, ◌≤◌, ◌≡◌, refl, ap, ◌∙◌, List, ◌∷◌, true, false, Option, some, length,
}
use ip_ndn_stack_cpp.Text.{Bytes, slash}
use ip_ndn_stack_cpp.Word.{int_limit}
use ip_ndn_stack_cpp.Boost.{Boost}
use ip_ndn_stack_cpp.Naming.Injective.{Flow}
use ip_ndn_stack_cpp.Ndn.State.{Ndn, Filter, Outcome, express_interest}
use ip_ndn_stack_cpp.Ndn.Handlers.{Sockets, forget_guess, on_interest}
use ip_ndn_stack_cpp.Ndn.Faults.{
  number_pre_name, number_data_name, number_pre_past_int, short_tcp_pre,
}
use ip_ndn_stack_cpp.Network.{Forwarder, World}
use ip_ndn_stack_cpp.Network.Delivered.{IsFilterFor}
use ip_ndn_stack_cpp.Network.Serving.{
  Arrival, stray, terminated, undefined, with_receiver, go_on, call_filter, handle, process_events,
}

module _ (forwarder : Forwarder) (boost : Boost) (sockets : Sockets) where
  pub call_filter_lem :
      (name : Bytes) (o : Option Filter) (f : Filter) (s : Ndn)
      → o ≡ some f
      → f.pre ≡ true
      → f.tcp ≡ true
      → forwarder.matches f.prefix name ≡ true
      → call_filter forwarder boost sockets name o s ≡ on_interest boost name true true s
  unfolding call_filter
  call_filter_lem name o f s e pre tcp same = rw e (rw (same, pre, tcp) refl)

  process_events-stray :
      (name : Bytes) (j : ℕ) (rest : List Arrival) (w : World) (x : Outcome (Unit {0}) × Ndn)
      → IsFilterFor forwarder name j w.receiver
      → on_interest boost name true true w.receiver ≡ x
      → process_events forwarder boost sockets (stray name j ∷ rest) w
        ≡ go_on (process_events forwarder boost sockets rest) (with_receiver w x)
  unfolding process_events handle
  process_events-stray name j rest w x f e =
      ap (λ y. go_on (process_events forwarder boost sockets rest) (with_receiver w y))
        (call_filter_lem name _ f.filter w.receiver f.there f.pre f.tcp f.matched ∙ e)

  -- Any interest whose name is that of a pre-request of a flow with a decimal number past 2^31 - 1,
  -- and that the filter for those pre-requests matches, terminates the process of the receiver, once
  -- it has expressed the interest for the data of that number; what comes after it is not served any
  -- more.
  pub stray_terminates :
      (f : Flow) (n j : ℕ) (rest : List Arrival) (w : World)
      → int_limit ≤ n
      → IsFilterFor forwarder (number_pre_name f n) j w.receiver
      → process_events forwarder boost sockets (stray (number_pre_name f n) j ∷ rest) w
        ≡ terminated (record w {
          receiver =
              forget_guess
                (number_data_name f n)
                (express_interest (number_data_name f n) false true w.receiver);
        })
  stray_terminates f n j rest w h filter =
      process_events-stray (number_pre_name f n) j rest w _ filter
        (number_pre_past_int boost f n w.receiver h)

  -- Any interest that the same filter matches and whose name has six or fewer parts between slashes,
  -- the part before the first slash counted, makes the receiver read past the end of the parts.
  pub stray_undefined :
      (name : Bytes) (j : ℕ) (rest : List Arrival) (w : World)
      → length (boost.split name slash) ≤ 6
      → IsFilterFor forwarder name j w.receiver
      → process_events forwarder boost sockets (stray name j ∷ rest) w ≡ undefined w
  stray_undefined name j rest w h filter =
      process_events-stray name j rest w _ filter (short_tcp_pre boost name w.receiver h)
