-- ===== src/Network/Guessed.antt =====
-- The way of a packet whose own announcement is lost: an announcement of one of the 60 packets before
-- it in its flow makes the receiver ask for it.
use ip_ndn_stack_cpp.Prelude.{
  ℕ, zero, suc, ◌+◌, ◌<◌, ◌≤◌, ◌≡◌, refl, sym, ◌∙◌, ◌⊎◌, inl, inr, List, [], ◌∷◌, ◌++◌, Bool, true,
  false, ◌||◌, Option, none, some, get_elem?, bytes_eq, bytes_eq_self, arith, length, append-nil,
  Bool-cases, get_elem?-append, get_elem?-behind, if◌then◌else◌,
}
use ip_ndn_stack_cpp.Text.{Bytes}
use ip_ndn_stack_cpp.Word.{int_limit}
use ip_ndn_stack_cpp.Boost.{Boost}
use ip_ndn_stack_cpp.Tuple.{Memory}
use ip_ndn_stack_cpp.Naming.Injective.{Flow, IsFlow, flow_data_name}
use ip_ndn_stack_cpp.GuessSet.{find}
use ip_ndn_stack_cpp.Ndn.State.{Ndn, Request, Publication, Filter, Datagram, express_interest}
use ip_ndn_stack_cpp.Ndn.Handlers.{Sockets, num_of_guest, guess_one, on_interest}
use ip_ndn_stack_cpp.Ndn.Keeps.{IsKept, on_interest_keeps, on_data_keeps}
use ip_ndn_stack_cpp.Ndn.Rounds.{names, missing-place, tcp_request, guess_one-expressed}
use ip_ndn_stack_cpp.Ndn.Guesses.{forget-expressed}
use ip_ndn_stack_cpp.Ndn.Requests.{flow_pre_name, on_tcp_pre-expressed}
use ip_ndn_stack_cpp.Network.{
  Forwarder, World, Event, captures, asks, brings, bytes_of, hear, receive, receive_content, step,
  run,
}
use ip_ndn_stack_cpp.Network.Delivered.{IsFilterFor, hear_lem, receive_lem}

-- The numbers `num + 1` up to `num + rounds` have their names among those.
find-names :
    (name : ℕ → Bytes) (rounds num n : ℕ)
    → num < n
    → n ≤ num + rounds
    → find (name n) (names name rounds num) ≡ true
unfolding find names
find-names name zero num n lt le = absurd (omega arith)
find-names name (suc rounds) num n lt le = elim (first_or_later num n lt) [
  | inl first ↦ rw (first, bytes_eq_self (name n)) refl
  | inr later ↦
      or_true (bytes_eq (name (num + 1)) (name n)) _
        (find-names name rounds (num + 1) n later (omega arith))
]
  where
    first_or_later : (num n : ℕ) → num < n → (num + 1 ≡ n) ⊎ (num + 1 < n)
    first_or_later num n h = omega arith

    or_true : (a b : Bool) → b ≡ true → (a || b) ≡ true
    or_true true b h = refl
    or_true false b h = h

guess_one-more :
    (name : Bytes) (s : Ndn)
    → (more : List Request) × ((guess_one name s).expressed ≡ s.expressed ++ more)
guess_one-more name s =
    rw (guess_one-expressed name s) (elim (Bool-cases (find name s.guess_table)) [
      | inl old ↦ ([], rw old (sym (append-nil s.expressed)))
      | inr new ↦ (tcp_request name ∷ [], rw new refl)
    ])

-- The interest that the guess makes stands behind those that were there, and stays at its place.
AskedAt : ℕ → Bytes → Ndn → Type 0
AskedAt i name s = get_elem? s.expressed i ≡ some (tcp_request name)

more-AskedAt :
    (i : ℕ) (u : Bytes) (s s' : Ndn) (more : List Request)
    → s'.expressed ≡ s.expressed ++ more
    → AskedAt i u s
    → AskedAt i u s'
unfolding AskedAt
more-AskedAt i u s s' more e h = rw e (get_elem?-append s.expressed more i (tcp_request u) h)

AskedAt-IsKept : (i : ℕ) (u : Bytes) → IsKept (AskedAt i u)
unfolding AskedAt express_interest
AskedAt-IsKept i u = record {
  expresses = λ name tcp s h. get_elem?-append s.expressed _ i (tcp_request u) h;
  forgets = λ name s h. rw (forget-expressed name s) h;
  guesses = λ name s h.
      let (more, e) = guess_one-more name s in more-AskedAt i u s (guess_one name s) more e h;
}

module _ (forwarder : Forwarder) (boost : Boost) (sockets : Sockets) where
  -- What the handlers keep, every run keeps.
  module _ (P : Ndn → Type 0) (kept : IsKept P)
      (sends : (d : Datagram) (s : Ndn) → P s → P (record s { sent = s.sent ++ d ∷ [] })) where
    if-kept : (b : Bool) (s t : Ndn) → P s → P t → P (if b then s else t)
    if-kept true s t hs ht = hs
    if-kept false s t hs ht = ht

    hear-keeps :
        (r : Option Request) (f : Option Filter) (s : Ndn)
        → P s
        → P (hear forwarder boost sockets r f s)
    unfolding hear
    hear-keeps none f s h = h
    hear-keeps (some r) none s h = h
    hear-keeps (some r) (some f) s h =
        if-kept _ _ s (on_interest_keeps boost P r.name f.pre f.tcp s kept h) h

    content-keeps :
        (r : Request) (p : Publication) (m : Option Memory) (s : Ndn)
        → P s
        → P (receive_content forwarder boost sockets r p m s)
    unfolding receive_content
    content-keeps r p none s h = h
    content-keeps r p (some m) s h =
        if-kept _ _ s (on_data_keeps boost P sockets p.name _ r.is_pre r.is_tcp s sends h) h

    receive-keeps :
        (r : Option Request) (p : Option Publication) (s : Ndn)
        → P s
        → P (receive forwarder boost sockets r p s)
    unfolding receive
    receive-keeps none p s h = h
    receive-keeps (some r) none s h = h
    receive-keeps (some r) (some p) s h = content-keeps r p p.pkt s h

    step-keeps :
        (e : Event) (w : World) → P w.receiver → P (step forwarder boost sockets w e).receiver
    unfolding step
    step-keeps (captures uuid t) w h = h
    step-keeps (asks k j) w h = hear-keeps _ _ w.receiver h
    step-keeps (brings k j) w h = receive-keeps _ _ w.receiver h

    pub run-keeps :
        (es : List Event) (w : World) → P w.receiver → P (run forwarder boost sockets es w).receiver
    unfolding run
    run-keeps [] w h = h
    run-keeps (e ∷ es) w h = run-keeps es (step forwarder boost sockets w e) (step-keeps e w h)

  -- An announcement of number `k` that gets through makes the receiver ask for each of the next 60
  -- numbers that is not in its guess table.
  answered-AskedAt :
      (f : Flow) (k n : ℕ) (s : Ndn)
      → IsFlow f
      → k + num_of_guest < int_limit
      → k < n
      → n ≤ k + num_of_guest
      → find (flow_data_name f n) s.guess_table ≡ false
      → (i : ℕ) × AskedAt
          (i + length s.expressed)
          (flow_data_name f n)
          (on_interest boost (flow_pre_name f k) true true s).1
  unfolding AskedAt
  answered-AskedAt f k n s hf lt after within new =
      let u = flow_data_name f n in
      let guesses = names (flow_data_name f) num_of_guest k in
      let (i, there) =
        missing-place u s.guess_table guesses new
          (find-names (flow_data_name f) num_of_guest k n after within) in
      (
        suc i,
        rw (on_tcp_pre-expressed boost f k s hf lt)
            (get_elem?-behind s.expressed _ (suc i) ∙ there),
      )

  heard-AskedAt :
      (f : Flow) (k n j : ℕ) (o : Option Request) (r : Request) (s : Ndn)
      → IsFlow f
      → k + num_of_guest < int_limit
      → k < n
      → n ≤ k + num_of_guest
      → o ≡ some r
      → r.name ≡ flow_pre_name f k
      → IsFilterFor forwarder r.name j s
      → find (flow_data_name f n) s.guess_table ≡ false
      → (i : ℕ) × AskedAt
          (i + length s.expressed)
          (flow_data_name f n)
          (hear forwarder boost sockets o (get_elem? s.filters j) s)
  heard-AskedAt f k n j o r s hf lt after within e name filter new =
      rw (hear_lem forwarder boost sockets o r j s e filter)
        (rw name (answered-AskedAt f k n s hf lt after within new))

  -- Let an announcement of packet number `k` of a flow, which stands at place `a` of the sender's log,
  -- reach the receiver's filter for the flow's pre-requests, and let any events `later` happen. For
  -- each of the 60 numbers `n` after `k` whose name is not in the receiver's guess table, the receiver
  -- has expressed an interest in answer to that announcement, behind those expressed before, such
  -- that, if the sender has published packet `n` and the publication comes back for that interest
  -- within its lifetime, the receiver sends the packet's bytes, as one more datagram, to the flow's
  -- destination. No announcement of packet `n` is needed. The flow's fields hold what their C types
  -- hold, and `k` is at least 60 below 2^31.
  pub run-delivers_guessed :
      (later : List Event) (f : Flow) (k n a j b : ℕ) (r : Request) (p : Publication) (m : Memory)
      (w : World)
      → let w' = run forwarder boost sockets (asks a j ∷ later) w in
        IsFlow f
        → k + num_of_guest < int_limit
        → k < n
        → n ≤ k + num_of_guest
        → find (flow_data_name f n) w.receiver.guess_table ≡ false
        → get_elem? w.sender.ndn.expressed a ≡ some r
        → r.name ≡ flow_pre_name f k
        → IsFilterFor forwarder r.name j w.receiver
        → get_elem? w'.sender.ndn.published b ≡ some p
        → p.name ≡ flow_data_name f n
        → p.pkt ≡ some m
        → (i : ℕ) × (get_elem?
              (step forwarder boost sockets w (asks a j)).receiver.expressed
              (i + length w.receiver.expressed)
            ≡ some (tcp_request (flow_data_name f n)))
          × ((step forwarder boost sockets w'
                (brings (i + length w.receiver.expressed) b)).receiver.sent
              ≡ w'.receiver.sent ++ record { buffer = bytes_of m p.size; address = f.dst_ip } ∷ [])
  unfolding run step AskedAt
  run-delivers_guessed later f k n a j b r p m w hf lt after within new asked name filter published
        data_name pkt =
      let u = flow_data_name f n in
      let heard = step forwarder boost sockets w (asks a j) in
      let (i, there) =
        heard-AskedAt f k n j _ r w.receiver hf lt after within asked name filter new in
      let place = i + length w.receiver.expressed in
      let still =
        run-keeps (AskedAt place u) (AskedAt-IsKept place u) (λ d s x. x) later heard there in
      (
        i,
        there,
        receive_lem forwarder boost sockets _ _ f n m p
            (run forwarder boost sockets later heard).receiver hf still published data_name pkt,
      )
