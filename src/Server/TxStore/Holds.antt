-- ===== src/Server/TxStore/Holds.antt =====
-- What holds of the frames in a transaction store is kept by its operations.
use stomp.Prelude.{[], ◌∷◌, ◌++◌, All-append, Option-cases, inl, inr}
use stomp.Frame.Key
use stomp.Frame.Header.{Bytes}
use stomp.Frame.Base.{Frame, del}
use stomp.Server.TxStore.{TxStore, find, begin, abort, add}
use stomp.Server.TxStore.Laws.{Holds, Holds-delete, Holds-insert}

module _ {ι} (Q : Frame → Type ι) (t : TxStore) (tx : Bytes) where
  pub begin-Holds : Holds Q t → Holds Q (begin t tx).0
  unfolding begin find
  begin-Holds q = elim (Option-cases (find t tx)) [
    | inl n ↦ rw n (Holds-insert Q t tx [] tt q)
    | inr (l, o) ↦ rw o q
  ]

  pub abort-Holds : Holds Q t → Holds Q (abort t tx).0
  unfolding abort find
  abort-Holds q = elim (Option-cases (find t tx)) [
    | inl n ↦ rw n q
    | inr (l, o) ↦ rw o (Holds-delete Q t tx q)
  ]

  pub add-Holds : (f : Frame) → Q (del f Key.transaction) → Holds Q t → Holds Q (add t tx f).0
  unfolding add find
  add-Holds f qf q = elim (Option-cases (find t tx)) [
    | inl n ↦ rw n q
    | inr (l, o) ↦ rw o (
        Holds-insert Q t tx (l ++ del f Key.transaction ∷ [])
          (All-append Q l (del f Key.transaction ∷ []) (q tx l o) (qf, tt)) q)
  ]
