-- ===== src/Frame/Base.antt =====
-- frame/frame.go. A frame in the program always has a header: `New` gives it one, and `Read` and
-- `Clone` go through `New` or copy it; so the nil header is left out.
use stomp.Prelude.{List, [], ◌∷◌}
use stomp.Frame.Header.{Bytes, Header, Entry}
use stomp.Frame.Header

pub record Frame : Type 0 where
  pub command : Bytes
  pub header : Header
  pub body : Bytes

-- The loop of `New` over its pairs of arguments.
unfoldable pub add_all : Header → List Entry → Header
unfolding Header.add
add_all h [] = h
add_all h ((key, value) ∷ es) = add_all (Header.add h key value) es

-- `New`; every call in the program passes whole pairs.
unfoldable pub new : Bytes → List Entry → Frame
unfolding add_all
new command headers = record { command = command; header = add_all [] headers; body = [] }

-- `f.Header.Set`, `f.Header.Del` and `f.Header.Contains` on the frame that holds the header.
abbrev pub set : Frame → Bytes → Bytes → Frame
set f key value = record f { header = Header.set f.header key value }

abbrev pub del : Frame → Bytes → Frame
del f key = record f { header = Header.del f.header key }
