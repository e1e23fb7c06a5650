-- ===== src/Server/Conn/Loop/Cleanup.antt =====
-- What a connection asks of the upper layer when it closes.
use stomp.Prelude.{
  ℕ, ◌≡◌, refl, sym, ◌∙◌, ap, ap₂, false, List, [], ◌∷◌, ◌++◌, none, some, map, arith, append_assoc,
  append-nil,
}
use stomp.Go.Map.{Map, lookup}
use stomp.Frame.Header.{Bytes}
use stomp.Server.Subscription.{Heap, store}
use stomp.Server.SubscriptionList.{mark}
use stomp.Server.TxStore
use stomp.Server.Conn.State.{Request, unsubscribe_op, requeue_op, disconnected_op, Conn}
use stomp.Server.Conn.Loop.{unsubscribe_all, requeue_list, cleanup_sub_channel, cleanup_conn}

-- The frames of some subscriptions go back.
abbrev requeues : Heap → List ℕ → List Request
requeues h l = map (λ r. requeue_op ((h r).frame)) l

-- Every subscription of a map is taken off its queue or topic.
abbrev unsubscribes : Map ℕ → List Request
unsubscribes m = map (λ e. unsubscribe_op e.1) m

unsubscribe_all-some : (m : Map ℕ) → unsubscribe_all (some m) ≡ unsubscribes m
unfolding unsubscribe_all
unsubscribe_all-some [] = refl
unsubscribe_all-some ((id, r) ∷ m) = ap (◌∷◌ (unsubscribe_op r)) (unsubscribe_all-some m)

-- The same frames lie with the subscriptions of both.
abbrev SameFrames : Heap → Heap → Type 0
SameFrames g h = (j : ℕ) → (g j).frame ≡ (h j).frame

mark-SameFrames : (h : Heap) (r : ℕ) → SameFrames (mark h r false) h
unfolding mark store
mark-SameFrames h r j = ground arith

requeues-SameFrames : (g h : Heap) (l : List ℕ) → SameFrames g h → requeues g l ≡ requeues h l
requeues-SameFrames g h [] e = refl
requeues-SameFrames g h (r ∷ l) e = ap₂ ◌∷◌ (ap requeue_op (e r)) (requeues-SameFrames g h l e)

abbrev Requeued : Conn → List ℕ → Conn → Type 0
Requeued c l d =
    (d.requests ≡ c.requests ++ requeues c.heap l)
    × SameFrames d.heap c.heap
    × (d.subs ≡ c.subs)
    × (d.tx_store ≡ c.tx_store)
    × (d.number ≡ c.number)

requeue_list-Requeued : (c : Conn) (l : List ℕ) → Requeued c l (requeue_list c l)
unfolding requeue_list
requeue_list-Requeued c [] = (sym (append-nil c.requests), (λ j. refl), refl, refl, refl)
requeue_list-Requeued c (r ∷ l) =
    let c' = record c {
      heap = mark c.heap r false;
      requests = c.requests ++ requeue_op ((c.heap r).frame) ∷ [];
    } in
    let (q, h, s, t, n) = requeue_list-Requeued c' l in
    (
      q
          ∙ ap (◌++◌ c'.requests) (requeues-SameFrames c'.heap c.heap l (mark-SameFrames c.heap r))
          ∙ append_assoc c.requests (requeue_op ((c.heap r).frame) ∷ []) (requeues c.heap l),
      (λ j. h j ∙ mark-SameFrames c.heap r j),
      s,
      t,
      n,
    )

cleanup_sub_channel-Requeued : (c : Conn) (l : List ℕ) → Requeued c l (cleanup_sub_channel c l)
unfolding cleanup_sub_channel
cleanup_sub_channel-Requeued c [] = (sym (append-nil c.requests), (λ j. refl), refl, refl, refl)
cleanup_sub_channel-Requeued c (r ∷ l) =
    let c' = record c { requests = c.requests ++ requeue_op ((c.heap r).frame) ∷ [] } in
    let (q, h, s, t, n) = cleanup_sub_channel-Requeued c' l in
    (
      q ∙ append_assoc c.requests (requeue_op ((c.heap r).frame) ∷ []) (requeues c.heap l),
      h,
      s,
      t,
      n,
    )

-- The requests of the parts, one behind the other.
join_all :
    (a u l p z : List Request) (x : Request) (t1 t2 t3 t4 : List Request)
    → t1 ≡ a ++ u
    → t2 ≡ t1 ++ l
    → t3 ≡ t2 ++ p
    → t4 ≡ (t3 ++ x ∷ []) ++ z
    → t4 ≡ a ++ u ++ l ++ p ++ x ∷ z
join_all a u l p z x t1 t2 t3 t4 e1 e2 e3 e4 = rw e4 (rw e3 (rw e2 (rw e1 (simp append_assoc))))

-- A connection that closes, while its map of subscriptions is there, requests just this of the
-- upper layer, in this order: to unsubscribe each subscription of the map, to requeue the frame of
-- each subscription that waits for an acknowledgement, in the order of the list, and of each in the
-- subscription channel, to note that it is disconnected, and to requeue what has come into the
-- channel since. It keeps no subscription and no transaction.
pub cleanup_conn_lem :
    (c : Conn) (m : Map ℕ) (pending late : List ℕ)
    → c.subs ≡ some m
    → let d = cleanup_conn c pending late in
      (d.requests
        ≡ c.requests
          ++ unsubscribes m
          ++ requeues c.heap c.sub_list
          ++ requeues c.heap pending
          ++ disconnected_op c.number ∷ requeues c.heap late)
      × (d.subs ≡ none)
      × ((tx : Bytes) → TxStore.find d.tx_store tx ≡ none)
unfolding cleanup_conn TxStore.init TxStore.find lookup
cleanup_conn_lem c m pending late e =
    let told = record c {
      tx_store = TxStore.init c.tx_store;
      requests = c.requests ++ unsubscribe_all c.subs;
      subs = none;
    } in
    let listed = requeue_list told told.sub_list in
    let (q1, h1, s1, t1, n1) = requeue_list-Requeued told told.sub_list in
    let emptied = cleanup_sub_channel listed pending in
    let (q2, h2, s2, t2, n2) = cleanup_sub_channel-Requeued listed pending in
    let left = record emptied {
      requests = emptied.requests ++ disconnected_op emptied.number ∷ [];
    } in
    let (q3, h3, s3, t3, n3) = cleanup_sub_channel-Requeued left late in
    (
      join_all c.requests (unsubscribes m) (requeues c.heap c.sub_list) (requeues c.heap pending)
          (requeues c.heap late) (disconnected_op c.number) told.requests listed.requests
          emptied.requests (cleanup_sub_channel left late).requests
          (ap (◌++◌ c.requests) (ap unsubscribe_all e ∙ unsubscribe_all-some m)) q1
          (q2 ∙ ap (◌++◌ listed.requests) (requeues-SameFrames listed.heap c.heap pending h1))
          (q3
            ∙ ap₂ ◌++◌ (ap (λ n. emptied.requests ++ disconnected_op n ∷ []) (n2 ∙ n1))
                (requeues-SameFrames emptied.heap c.heap late (λ j. h2 j ∙ h1 j))),
      s3 ∙ s2 ∙ s1,
      λ tx. ap (λ t. TxStore.find t tx) (t3 ∙ t2 ∙ t1),
    )
