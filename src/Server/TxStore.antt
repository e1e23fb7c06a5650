-- ===== src/Server/TxStore.antt =====
-- server/client/tx_store.go: the frames of each open transaction, in the order they came.
pub mod Laws
pub mod Holds
use stomp.Prelude.{ℕ, Bool, true, false, List, [], ◌∷◌, ◌++◌, Option, none, some}
use stomp.Go.Result.{Result, ok, err, ◌>>=◌}
use stomp.Go.Map.{Map, lookup, insert, delete}
use stomp.Frame.Key
use stomp.Frame.Header.{Bytes}
use stomp.Frame.Base.{Frame, del}
use stomp.Server.ClientError.{ClientError, tx_already_in_progress, tx_unknown}
use stomp.Server.Panic.{OrPanic}

-- `none` is the nil map, in which nothing is found.
pub record TxStore : Type 0 where
  pub transactions : Option (Map (List Frame))

abbrev pub or_made : Option (Map (List Frame)) → Map (List Frame)
or_made none = []
or_made (some m) = m

-- `txs.transactions[tx]`.
unfoldable pub find : TxStore → Bytes → Option (List Frame)
find t tx = lookup (or_made t.transactions) tx

unfoldable pub init : TxStore → TxStore
init t = record { transactions = none }

put : TxStore → Bytes → List Frame → TxStore
put t tx l = record { transactions = some (insert (or_made t.transactions) tx l) }

drop : TxStore → Bytes → TxStore
drop t tx = record { transactions = some (delete (or_made t.transactions) tx) }

begin_with : TxStore → Bytes → Option (List Frame) → TxStore × Option ClientError
begin_with t tx (some l) =
    (record { transactions = some (or_made t.transactions) }, some tx_already_in_progress)
begin_with t tx none = (put t tx [], none)

unfoldable pub begin : TxStore → Bytes → TxStore × Option ClientError
unfolding begin_with put find
begin t tx = begin_with t tx (find t tx)

abort_with : TxStore → Bytes → Option (List Frame) → TxStore × Option ClientError
abort_with t tx (some l) = (drop t tx, none)
abort_with t tx none = (t, some tx_unknown)

unfoldable pub abort : TxStore → Bytes → TxStore × Option ClientError
unfolding abort_with drop find
abort t tx = abort_with t tx (find t tx)

add_with : TxStore → Bytes → Frame → Option (List Frame) → TxStore × Frame × Option ClientError
add_with t tx f (some l) = let f' = del f Key.transaction in (put t tx (l ++ f' ∷ []), f', none)
add_with t tx f none = (t, f, some tx_unknown)

-- `Add` also takes the transaction header off the frame.
unfoldable pub add : TxStore → Bytes → Frame → TxStore × Frame × Option ClientError
unfolding add_with put find
add t tx f = add_with t tx f (find t tx)

-- The loop of `Commit`: a frame leaves the list before it is handed to the callback, and the loop
-- stops at the callback's first error. The result has the frames that are left in the list. The
-- callback works on the state `S`, which is apart from the store: a frame in the store has lost its
-- transaction header, so running it does not come back to the store.
unfoldable pub commit_loop {ℓ} :
    {S : Type ℓ}
    → (S → Frame → OrPanic (S × Option ClientError))
    → List Frame
    → S
    → OrPanic (List Frame × S × Option ClientError)
commit_loop commit_func [] s = ok ([], s, none)
commit_loop commit_func (f ∷ l) s = commit_func s f >>= λ x. elim x.1 [
  | some e ↦ ok (l, x.0, some e)
  | none ↦ commit_loop commit_func l x.0
]

abbrev after_loop {ℓ} :
    {S : Type ℓ}
    → TxStore
    → Bytes
    → List Frame × S × Option ClientError
    → TxStore × S × Option ClientError
after_loop t tx (l, s, some e) = (put t tx l, s, some e)
after_loop t tx (l, s, none) = (drop t tx, s, none)

commit_with {ℓ} :
    {S : Type ℓ}
    → TxStore
    → Bytes
    → (S → Frame → OrPanic (S × Option ClientError))
    → S
    → Option (List Frame)
    → OrPanic (TxStore × S × Option ClientError)
commit_with t tx commit_func s (some l) =
    commit_loop commit_func l s >>= λ x. ok (after_loop t tx x)
commit_with t tx commit_func s none = ok (t, s, some tx_unknown)

unfoldable pub commit {ℓ} :
    {S : Type ℓ}
    → TxStore
    → Bytes
    → (S → Frame → OrPanic (S × Option ClientError))
    → S
    → OrPanic (TxStore × S × Option ClientError)
unfolding commit_with put drop find
commit t tx commit_func s = commit_with t tx commit_func s (find t tx)
