-- ===== src/Tests/Subscriber.antt =====
-- The theorems on a client's subscription.
use stomp.Prelude.{◌≡◌, ◌≤◌, length, refl, true, false, List, [], ◌∷◌, none, some, codes, same, All}
use stomp.Frame.Command
use stomp.Frame.Base.{Frame, new}
use stomp.Client.AckMode.{ack_client}
use stomp.Client.Message.{SubInfo}
use stomp.Client.Subscription.{
  Subscription, new_subscription, closing, closed, over, waiting, parking, done, loading, shutting,
  entering, is_closed, read_on, next, Act, unsubscribe, options_done, frame_sent, call_on, step,
  steps, here, start_unsubscribe, prepared, caller_step, on_receive, reader_step, close_step,
  close_c, last_message, transmitted,
}
use stomp.Client.Subscription.CloseOnce.{Reach-closes_once}
use stomp.Client.Subscription.Sends.{IsQuiet, Reach-sends_open}
use stomp.Client.Subscription.Ends.{receipt_acts, lost_at, Reach-steps, steps-lost}
use stomp.Client.Subscription.Ending.{IsOwn, Reach-ends}

abbrev info : SubInfo
info = record {
  id = codes "1";
  reply_to_set = false;
  destination = codes "/queue/a";
  ack_mode = ack_client;
}

abbrev started : Subscription
started = new_subscription info 0

-- Unsubscribe is called, sends its frame and waits; then the receipt comes.
abbrev receipt_1 : Frame
receipt_1 = new Command.receipt []

abbrev whole_life : List Act
whole_life =
    unsubscribe ∷ options_done none ∷ frame_sent none ∷ call_on ∷ call_on ∷ receipt_acts receipt_1

abbrev ended : Subscription
ended = record started {
  state = closed;
  c_closed = true;
  once = true;
  once_done = true;
  reader = over;
  caller = done none;
}

started-ended : steps whole_life started ≡ some ended
unfolding steps step start_unsubscribe prepared new_subscription caller_step on_receive reader_step
    close_step close_c last_message transmitted same new
started-ended = refl

Reach-closes_once_example :
    (ended.close_panic ≡ false) × (ended.c_closed ≡ true → ended.state ≡ closed)
Reach-closes_once_example = Reach-closes_once info 0 ended (
    Reach-steps started ended whole_life here
      (tt, (tt, (tt, (tt, (tt, (tt, (tt, (tt, (tt, (tt, (tt, (tt, tt)))))))))))) started-ended)

whole_life-IsQuiet : All IsQuiet whole_life
unfolding IsQuiet
whole_life-IsQuiet = (tt, (tt, (tt, (tt, (tt, (tt, (tt, (tt, (tt, (tt, (tt, (tt, tt))))))))))))

Reach-sends_open_example : ended.send_panic ≡ false
Reach-sends_open_example =
    Reach-sends_open info 0 ended
      (Reach-steps started ended whole_life here whole_life-IsQuiet started-ended)

-- Unsubscribe waits, and the loop has the receipt; then the loop takes a step.
abbrev receipt_taken : Subscription
receipt_taken = record started {
  state = closing;
  caller = waiting;
  reader = loading (some receipt_1);
}

abbrev receipt_seen : Subscription
receipt_seen = record receipt_taken { reader = shutting (entering none) }

receipt_taken-step : step read_on receipt_taken ≡ some receipt_seen
unfolding step reader_step is_closed last_message same new new_subscription
receipt_taken-step = refl

Reach-ends_example :
    (acts : List Act) × (u : Subscription) × (length acts ≤ 6)
    × All IsOwn acts
    × (steps acts receipt_seen ≡ some u)
    × (u.reader ≡ over)
    × (u.caller ≡ done none)
    × (u.c_closed ≡ true)
    × (u.state ≡ closed)
unfolding new new_subscription
Reach-ends_example =
    Reach-ends {P = λ a. Unit {0}} receipt_taken receipt_seen receipt_1 refl refl refl refl refl
      refl refl (next here read_on tt receipt_taken-step)

abbrev about_to_wait : Subscription
about_to_wait = record started { state = closing; caller = parking }

steps-lost_example :
    (steps (receipt_acts receipt_1) about_to_wait ≡ some (lost_at about_to_wait))
    × ((lost_at about_to_wait).caller ≡ waiting)
unfolding new new_subscription
steps-lost_example =
    steps-lost about_to_wait (lost_at about_to_wait) receipt_1 refl refl refl refl refl refl refl
      here
