-- ===== src/Providers/Coinbase/Session/Reading.antt =====
-- A round of the reader keeps a session sound.
use smart_market_data_gatewa.Prelude.{ℕ, Bool, true, false, if◌then◌else◌, Option, arith}
use smart_market_data_gatewa.Prelude.Text.{Text}
use smart_market_data_gatewa.Prelude.Outcome.{
  Outcome, Error, ok, raised, value_error, key_error, runtime_error, os_error, arithmetic_error,
  cancelled,
}
use smart_market_data_gatewa.Providers.Coinbase.Json.{null, string, scalar, array, object, Python}
use smart_market_data_gatewa.Providers.Coinbase.Names
use smart_market_data_gatewa.Providers.Coinbase.State.{
  FinalState, Trouble, stalled, ended, failed, Session, record_raw_message, record_rejected,
  finalize_reader,
}
use smart_market_data_gatewa.Providers.Coinbase.Session.{
  Frame, silence, closed, garbled, broken, frame, reader_ends, rejected, settled, received,
  finished, acknowledge, raw_channel, read_payload, read_frame, read,
}
use smart_market_data_gatewa.Providers.Coinbase.Session.Sound.{
  IsSound, sum_values-incremented, after-IsSound, acknowledge-IsSound, project-IsSound,
}

pub if-IsSound :
    (slack : ℕ) (b : Bool) (s t : Session)
    → IsSound slack s
    → IsSound slack t
    → IsSound slack (if b then s else t)
if-IsSound slack true s t h k = h
if-IsSound slack false s t h k = k

finished-IsSound :
    (slack : ℕ) (state : FinalState) (e : Option Error) (m : Option Trouble) (s : Session)
    → IsSound slack s
    → IsSound 0 (finished state e m s)
unfolding finalize_reader
finished-IsSound slack state e m s h = record {
  acknowledged = h.acknowledged;
  connected = λ x. absurd cc;
  counted = h.counted;
  accounted = omega (arith, h.accounted);
}

reader_ends-IsSound :
    (slack : ℕ) (e : Error) (s : Session) → IsSound slack s → IsSound 0 (reader_ends e s)
unfolding finalize_reader
reader_ends-IsSound slack cancelled s h = record {
  acknowledged = h.acknowledged;
  connected = λ x. absurd cc;
  counted = h.counted;
  accounted = omega (arith, h.accounted);
}
reader_ends-IsSound slack value_error s h = finished-IsSound slack failed _ _ s h
reader_ends-IsSound slack key_error s h = finished-IsSound slack failed _ _ s h
reader_ends-IsSound slack runtime_error s h = finished-IsSound slack failed _ _ s h
reader_ends-IsSound slack os_error s h = finished-IsSound slack failed _ _ s h
reader_ends-IsSound slack arithmetic_error s h = finished-IsSound slack failed _ _ s h

rejected-IsSound : (s : Session) → IsSound 1 s → IsSound 0 (rejected s)
unfolding record_rejected
rejected-IsSound s h = record {
  acknowledged = h.acknowledged;
  connected = h.connected;
  counted = h.counted;
  accounted = omega (arith, h.accounted);
}

received-IsSound : (channel : Text) (s : Session) → IsSound 0 s → IsSound 1 (received channel s)
unfolding record_raw_message
received-IsSound channel s h = record {
  acknowledged = h.acknowledged;
  connected = h.connected;
  counted =
      omega
        (arith, h.counted, sum_values-incremented s.diagnostics.raw_messages_by_channel channel);
  accounted = omega (arith, h.accounted);
}

settled-IsSound : (r : Session × Outcome (Unit {0})) → IsSound 1 r.0 → IsSound 0 (settled r)
settled-IsSound (s, ok u) h = record {
  acknowledged = h.acknowledged;
  connected = h.connected;
  counted = h.counted;
  accounted = omega (arith, h.accounted);
}
settled-IsSound (s, raised value_error) h = rejected-IsSound s h
settled-IsSound (s, raised key_error) h = reader_ends-IsSound 1 key_error s h
settled-IsSound (s, raised runtime_error) h = reader_ends-IsSound 1 runtime_error s h
settled-IsSound (s, raised os_error) h = reader_ends-IsSound 1 os_error s h
settled-IsSound (s, raised arithmetic_error) h = reader_ends-IsSound 1 arithmetic_error s h
settled-IsSound (s, raised cancelled) h = reader_ends-IsSound 1 cancelled s h

module _ (py : Python) where
  garbled-IsSound : (s : Session) → IsSound 0 s → IsSound 0 (rejected (received Names.unparsed s))
  garbled-IsSound s h =
      rejected-IsSound (received Names.unparsed s) (received-IsSound Names.unparsed s h)

  read_frame-IsSound :
      (f : Frame) (at : ℕ) (s : Session) → IsSound 0 s → IsSound 0 (read_frame py f at s)
  unfolding read_frame read_payload
  read_frame-IsSound silence at s h = finished-IsSound 0 stalled _ _ s h
  read_frame-IsSound closed at s h = finished-IsSound 0 ended _ _ s h
  read_frame-IsSound garbled at s h = garbled-IsSound s h
  read_frame-IsSound (broken e) at s h = reader_ends-IsSound 0 e s h
  read_frame-IsSound (frame null) at s h = garbled-IsSound s h
  read_frame-IsSound (frame (scalar b t)) at s h = garbled-IsSound s h
  read_frame-IsSound (frame (string t)) at s h = garbled-IsSound s h
  read_frame-IsSound (frame (array items)) at s h = garbled-IsSound s h
  read_frame-IsSound (frame (object payload)) at s h = settled-IsSound _ (
      after-IsSound 1
        (acknowledge py (raw_channel py payload) payload (received (raw_channel py payload) s)) _
        (acknowledge-IsSound 1 py (raw_channel py payload) payload _
          (received-IsSound (raw_channel py payload) s h))
        λ t u k. project-IsSound 1 py payload at t k)

  pub read-IsSound : (f : Frame) (at : ℕ) (s : Session) → IsSound 0 s → IsSound 0 (read py f at s)
  unfolding read
  read-IsSound f at s h =
      if-IsSound 0 s.reading (read_frame py f at s) s (read_frame-IsSound f at s h) h
