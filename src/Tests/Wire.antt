-- ===== src/Tests/Wire.antt =====
-- The theorems on frames and their wire format, on frames that occur.
use stomp.Prelude.{◌≡◌, ◌≢◌, refl, ◌++◌, [], some, codes, same, arith, one_of}
use stomp.Go.Result.{ok, err}
use stomp.Frame.Key
use stomp.Frame.Header
use stomp.Frame.Header.{Bytes}
use stomp.Frame.Header.Slice.{Refines, slice-Refines}
use stomp.Frame.Writer.{write}
use stomp.Frame.Reader.{read, is_command, unfinished}
use stomp.Frame.Reader.Total.{read-ne-unfinished}
use stomp.Frame.RoundTrip.{IsWritable, read-write}
use stomp.Frame.RoundTrip.Sound.{read-write-read}
use stomp.Tests.Data.{bytewise, hello}

pub hello-IsWritable : IsWritable hello
unfolding is_command Header.content_length Header.contains same one_of
hello-IsWritable = record { known = refl; keys = ground arith; sized = ground arith }

read-write_example : read bytewise (write (some hello) ++ codes "\n") ≡ ok (some hello, codes "\n")
read-write_example = read-write bytewise hello (codes "\n") hello-IsWritable

read-write-read_example : read bytewise (write (some hello) ++ []) ≡ ok (some hello, [])
read-write-read_example =
    read-write-read bytewise bytewise (write (some hello) ++ codes "\n") [] read-write_example

read-ne-unfinished_example : read bytewise (codes "SEND\nno colon") ≢ err unfinished
read-ne-unfinished_example = read-ne-unfinished bytewise (codes "SEND\nno colon")

slice-Refines_example : Refines hello.header Key.destination (codes "/queue/b")
slice-Refines_example = slice-Refines hello.header Key.destination (codes "/queue/b")
