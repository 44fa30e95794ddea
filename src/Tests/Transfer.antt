-- ===== src/Tests/Transfer.antt =====
-- Texts sent and received in pieces.
use yatb.Prelude.{
  true, List, [], ◌∷◌, ◌++◌, some, length, ◌≤◌, ◌≡◌, refl, arith, pos, map, inl, inr,
}
use yatb.Strings.{correct_reply, last}
use yatb.Text.{Bytes, codes, c_str, at}
use yatb.Transfer.{
  Line, Answer, room, refused, ready, written, select_error, idle, called, data_loop, data_write,
  block, control_loop, control_write, speed_write, arrived, returned, control_read, reached,
  retries,
}
use yatb.Transfer.Complete.{turns, Returned1, control_write-Returned1}
use yatb.Transfer.Received.{IsReceived, received, control_read-IsReceived, control_read_complete}
use yatb.Transfer.Sent.{InOrder, data_write-InOrder, control_write-InOrder}
use yatb.Transfer.Speed.{speed_write-data_write}

-- An encrypted connection with a buffer of four bytes and two retries.
abbrev tls : Line
tls = record { buffersize = 4; retry_count = pos 2; ssl = true }

abbrev answers : List Answer
answers = room 3 ∷ refused true ready ∷ refused true ready ∷ room 9 ∷ []

data_write_run : data_write tls (codes "hello") ready answers ≡ written true (codes "hello") []
unfolding data_write data_loop retries reached
data_write_run = refl

-- The third refusal is one too many.
data_write_retries :
    data_write tls (codes "hello") ready (room 3 ∷ refused true ready ∷ answers)
    ≡ written true (codes "hello") (refused true ready ∷ refused true ready ∷ room 9 ∷ [])
unfolding data_write data_loop retries reached
data_write_retries = refl

control_write_run :
    control_write tls (codes "hello") (called (room 9) ∷ idle ∷ called (room 9) ∷ [])
    ≡ written true (codes "hello") []
unfolding control_write control_loop block
control_write_run = refl

data_write-InOrder_example : InOrder (codes "hello") (data_write tls (codes "hello") ready answers)
data_write-InOrder_example = data_write-InOrder tls (codes "hello") ready answers

control_write-InOrder_example :
    InOrder
      (codes "hello")
      (control_write tls (codes "hello") (called (room 9) ∷ select_error ∷ []))
    × (length (block tls (codes "hello") (length (codes "he"))) ≤ 4)
    × ((rest : Bytes) × (codes "llo" ≡ block tls (codes "hello") (length (codes "he")) ++ rest))
control_write-InOrder_example =
    control_write-InOrder tls (codes "hello") (called (room 9) ∷ select_error ∷ []) (codes "he")
      (codes "llo") refl

control_write-Returned1_example :
    Returned1 (control_write tls (codes "abc") (turns (0 ∷ 0 ∷ 0 ∷ [])))
control_write-Returned1_example =
    control_write-Returned1 tls (codes "abc") (0 ∷ 0 ∷ 0 ∷ []) (omega arith) (omega arith)

speed_write-data_write_example :
    speed_write tls (codes "hello") answers ≡ data_write tls (codes "hello") ready answers
speed_write-data_write_example =
    speed_write-data_write tls (codes "hello") answers (refl, (refl, tt))

control_read-IsReceived_example :
    IsReceived []
      (arrived (codes "230 ") ∷ arrived (codes "a\n") ∷ [])
      (control_read tls (arrived (codes "230 ") ∷ arrived (codes "a\n") ∷ []))
control_read-IsReceived_example =
    control_read-IsReceived tls (arrived (codes "230 ") ∷ arrived (codes "a\n") ∷ [])

control_read_complete_example :
    control_read tls (map arrived (codes "230\n" ∷ codes "ab" ∷ []) ++ arrived (codes "c\n") ∷ [])
    ≡ returned 1
        (some
          (correct_reply (received [] (codes "230\n" ∷ codes "ab" ∷ []) ++ c_str (codes "c\n"))))
        []
unfolding c_str last at
control_read_complete_example =
    control_read_complete tls (codes "230\n" ∷ codes "ab" ∷ []) (codes "c\n") []
      (inl (omega arith), (inr (b'b', refl, omega arith), tt)) (omega arith) refl
