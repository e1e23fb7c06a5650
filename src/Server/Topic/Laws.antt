-- ===== src/Server/Topic/Laws.antt =====
-- A topic sends each subscriber a frame of its own.
use stomp.Prelude.{
  ℕ, suc, ◌≤◌, ◌<◌, ◌≡◌, ◌≢◌, refl, sym, ◌∙◌, ap, ap₂, ◌⊎◌, inl, inr, List, [], ◌∷◌, ◌++◌, none,
  arith, All, append_assoc, append-nil,
}
use stomp.Go.Result.{ok}
use stomp.Frame.Key
use stomp.Frame.Base.{Frame, set}
use stomp.Server.Panic.{OrPanic}
use stomp.Server.Subscription.{Heap, set_subscription_header}
use stomp.Server.SubscriptionList.{Subs}
use stomp.Server.Topic.{
  Topic, World, put, clone, send_topic_frame, send_all, enqueue_to, enqueue, contents,
}

-- What each subscriber is to get: the frame, with its own subscription id.
abbrev pub copies : Heap → Frame → Subs → List (ℕ × Frame)
copies h f [] = []
copies h f (r ∷ l) = ((h r).conn, set f Key.subscription (h r).id) ∷ copies h f l

-- No pointer is in the list, or twice in it.
abbrev pub Fresh : ℕ → List (ℕ × ℕ) → Type 0
Fresh p [] = Unit {0}
Fresh p ((c, q) ∷ l) = (q ≢ p) × Fresh p l

abbrev pub Unshared : List (ℕ × ℕ) → Type 0
Unshared [] = Unit {0}
Unshared ((c, p) ∷ l) = Fresh p l × Unshared l

-- The pointers of the list are the frame's own or new.
abbrev Made : ℕ → ℕ → List (ℕ × ℕ) → Type 0
Made p n [] = Unit {0}
Made p n ((c, q) ∷ l) = ((q ≡ p) ⊎ (n ≤ q)) × Made p n l

-- What a broadcast of the frame at `p` to `l` comes to: it ends without a panic, every subscriber's
-- entry is its own pointer, and behind it stands the frame with that subscriber's id.
pub record Broadcasts (h : Heap) (w : World) (l : Subs) (p : ℕ) (call : OrPanic World)
    : Type 0 where
  pub world : World
  pub sent : List (ℕ × ℕ)
  pub returns : call ≡ ok world
  pub written : world.written ≡ w.written ++ sent
  pub contents_lem : contents world.at sent ≡ copies h (w.at p) l
  pub unshared : Unshared sent
  pub untouched : (q : ℕ) → q < w.next → q ≢ p → world.at q ≡ w.at q

abbrev Idle : Heap → Subs → Type 0
Idle h = All (λ r. (h r).frame ≡ none)

send_topic_frame_lem :
    (h : Heap) (w : World) (r p : ℕ)
    → (h r).frame ≡ none
    → send_topic_frame h w r p
      ≡ ok (record w {
        at = put w.at p (set (w.at p) Key.subscription (h r).id);
        written = w.written ++ (((h r).conn, p) ∷ []);
      })
unfolding send_topic_frame set_subscription_header
send_topic_frame_lem h w r p e = rw e refl

Made-Fresh : (p n q : ℕ) (l : List (ℕ × ℕ)) → Made p n l → q < n → q ≢ p → Fresh q l
Made-Fresh p n q [] m lt ne = tt
Made-Fresh p n q ((c, x) ∷ l) m lt ne = (ground arith, Made-Fresh p n q l m.1 lt ne)

Made-mono : (p n n' : ℕ) (l : List (ℕ × ℕ)) → n' ≤ n → Made p n l → Made p n' l
Made-mono p n n' [] le m = tt
Made-mono p n n' ((c, x) ∷ l) le m = (ground arith, Made-mono p n n' l le m.1)

-- The induction also says where the new pointers lie.
record Sends (h : Heap) (w : World) (l : Subs) (p : ℕ) (call : OrPanic World) : Type 0 where
  broadcasts : Broadcasts h w l p call
  made : Made p w.next broadcasts.sent

put_self : (at : ℕ → Frame) (p : ℕ) (f : Frame) → put at p f p ≡ f
unfolding put
put_self at p f = ground arith

put_other : (at : ℕ → Frame) (p q : ℕ) (f : Frame) → q ≢ p → put at p f q ≡ at q
unfolding put
put_other at p q f ne = ground arith

-- The world when the first of several subscribers has got its copy.
abbrev first_sent : Heap → World → ℕ → ℕ → World
first_sent h w r p =
    let copied = put w.at w.next (w.at p) in
    record {
      at = put copied w.next (set (copied w.next) Key.subscription (h r).id);
      next = suc w.next;
      written = w.written ++ (((h r).conn, w.next) ∷ []);
    }

first_sent-other :
    (h : Heap) (w : World) (r p q : ℕ) → q < w.next → (first_sent h w r p).at q ≡ w.at q
first_sent-other h w r p q lt =
    let copied = put w.at w.next (w.at p) in
    put_other copied w.next q (set (copied w.next) Key.subscription (h r).id) (omega arith)
    ∙ put_other w.at w.next q (w.at p) (omega arith)

first_sent-copy :
    (h : Heap) (w : World) (r p : ℕ)
    → (first_sent h w r p).at w.next ≡ set (w.at p) Key.subscription (h r).id
first_sent-copy h w r p =
    let copied = put w.at w.next (w.at p) in
    put_self copied w.next (set (copied w.next) Key.subscription (h r).id)
    ∙ ap (λ f. set f Key.subscription (h r).id) (put_self w.at w.next (w.at p))

send_all-step :
    (h : Heap) (w : World) (r q : ℕ) (l : Subs) (p : ℕ)
    → (h r).frame ≡ none
    → send_all h w (r ∷ q ∷ l) p ≡ send_all h (first_sent h w r p) (q ∷ l) p
unfolding send_all clone
send_all-step h w r q l p idle = rw (send_topic_frame_lem h (clone w p).0 r w.next idle) refl

Sends-cons :
    (h : Heap) (w : World) (r : ℕ) (l : Subs) (p : ℕ) (call : OrPanic World)
    → p < w.next
    → Sends h (first_sent h w r p) l p call
    → Sends h w (r ∷ l) p call
Sends-cons h w r l p call lt s =
    let b = s.broadcasts in
    record {
      broadcasts = record {
        world = b.world;
        sent = ((h r).conn, w.next) ∷ b.sent;
        returns = b.returns;
        written = b.written ∙ append_assoc w.written (((h r).conn, w.next) ∷ []) b.sent;
        contents_lem =
            ap₂ ◌∷◌
              (ap (λ f. ((h r).conn, f))
                (b.untouched w.next (omega arith) (omega arith) ∙ first_sent-copy h w r p))
              (b.contents_lem ∙ ap (λ f. copies h f l) (first_sent-other h w r p p lt));
        unshared = (
          Made-Fresh p (suc w.next) w.next b.sent s.made (omega arith) (omega arith),
          b.unshared,
        );
        untouched = λ x lx ne. b.untouched x (omega arith) ne ∙ first_sent-other h w r p x lx;
      };
      made = (inr (omega arith), Made-mono p (suc w.next) w.next b.sent (omega arith) s.made);
    }

send_all-Sends :
    (h : Heap) (w : World) (l : Subs) (p : ℕ)
    → p < w.next
    → Idle h l
    → Sends h w l p (send_all h w l p)
unfolding send_all
send_all-Sends h w [] p lt idle = record {
  broadcasts = record {
    world = w;
    sent = [];
    returns = refl;
    written = sym (append-nil w.written);
    contents_lem = refl;
    unshared = tt;
    untouched = λ q b ne. refl;
  };
  made = tt;
}
send_all-Sends h w (r ∷ []) p lt idle = record {
  broadcasts = record {
    world = record w {
      at = put w.at p (set (w.at p) Key.subscription (h r).id);
      written = w.written ++ (((h r).conn, p) ∷ []);
    };
    sent = ((h r).conn, p) ∷ [];
    returns = send_topic_frame_lem h w r p idle.0;
    written = refl;
    contents_lem = unfold put in ground arith;
    unshared = (tt, tt);
    untouched = λ q b ne. unfold put in ground arith;
  };
  made = (inl refl, tt);
}
send_all-Sends h w (r ∷ q ∷ l) p lt idle = rw (send_all-step h w r q l p idle.0) (
    Sends-cons h w r (q ∷ l) p (send_all h (first_sent h w r p) (q ∷ l) p) lt
      (send_all-Sends h (first_sent h w r p) (q ∷ l) p (omega arith) idle.1))

-- `Enqueue` is the loop, whatever the number of subscribers: the cases for none and for one only
-- save the copy.
enqueue-send_all :
    (h : Heap) (t : Topic) (w : World) (p : ℕ) → enqueue h t w p ≡ send_all h w t.subs p
unfolding enqueue
enqueue-send_all h t w p = cases t.subs
  where
    cases : (l : Subs) → enqueue_to h w l p ≡ send_all h w l p
    cases [] = refl
    cases (r ∷ []) = refl
    cases (r ∷ q ∷ l) = refl

-- A topic whose subscribers have no frame pending sends each of them, in the order of subscription,
-- one frame: the message with that subscriber's id. The frames are all different objects, and no
-- object that was there before, but for the message itself, is changed.
pub enqueue-Broadcasts :
    (h : Heap) (t : Topic) (w : World) (p : ℕ)
    → p < w.next
    → All (λ r. (h r).frame ≡ none) t.subs
    → Broadcasts h w t.subs p (enqueue h t w p)
enqueue-Broadcasts h t w p lt idle =
    rw (enqueue-send_all h t w p) ((send_all-Sends h w t.subs p lt idle).broadcasts)
