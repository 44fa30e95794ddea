-- ===== src/Tests/Pieces.antt =====
-- Pieces read from a data connection.
use yatb.Prelude.{true, [], ◌∷◌, some, ◌≡◌, refl, pos}
use yatb.Text.{codes}
use yatb.Transfer.{Line, ready}
use yatb.Transfer.Pieces.{
  bytes, refused, taken, speed_read, data_read, not_ready, called, cached_end, cached_loop,
  data_read_cached,
}
use yatb.Transfer.Stream.{
  stream, round_stream, Takes, data_read-speed_read-Takes, data_read_cached-Takes,
}

-- An encrypted connection with a buffer of four bytes and two retries.
abbrev tls : Line
tls = record { buffersize = 4; retry_count = pos 2; ssl = true }

data_read-speed_read-Takes_example :
    Takes stream 4
      (stream (refused true ready ∷ bytes (codes "hello") ∷ []))
      (data_read tls (refused true ready ∷ bytes (codes "hello") ∷ []))
    × Takes stream 4
        (stream (refused true ready ∷ bytes (codes "hello") ∷ []))
        (speed_read tls (refused true ready ∷ bytes (codes "hello") ∷ []))
data_read-speed_read-Takes_example =
    data_read-speed_read-Takes tls (refused true ready ∷ bytes (codes "hello") ∷ [])

data_read_cached_run :
    data_read_cached tls (called (bytes (codes "hel")) ∷ called (bytes (codes "lo")) ∷ [])
    ≡ taken true (some 4) (codes "hell") (called (bytes (codes "o")) ∷ [])
unfolding data_read_cached cached_loop cached_end
data_read_cached_run = refl

data_read_cached-Takes_example :
    Takes round_stream 4
      (round_stream (called (bytes (codes "hel")) ∷ not_ready ∷ []))
      (data_read_cached tls (called (bytes (codes "hel")) ∷ not_ready ∷ []))
data_read_cached-Takes_example =
    data_read_cached-Takes tls (called (bytes (codes "hel")) ∷ not_ready ∷ [])
