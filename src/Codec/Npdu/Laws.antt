-- ===== src/Codec/Npdu/Laws.antt =====
-- The header that `start_bvlc` and `finish_bvlc` put round a frame.
use esp32_p4_bacnet_switches.Base.{ℕ, ◌≤◌, Bool, arith, length, length-set, set, as_u8, ◌/◌, ◌^◌}
use esp32_p4_bacnet_switches.Codec.Writer.{Writer, fresh}
use esp32_p4_bacnet_switches.Codec.Writer.Grows.{Grows, encoders}
use esp32_p4_bacnet_switches.Codec.Npdu.{start_bvlc, finish_bvlc}

pub start_bvlc-Grows : {w : Writer} (u : Writer) (b : Bool) → Grows w u → Grows w (start_bvlc u b)
unfolding start_bvlc
start_bvlc-Grows u b g = search encoders depth 12

-- A frame that is sent is as long as the buffer's content.
pub length-finish_bvlc : (w : Writer) → length (finish_bvlc w) ≤ length w.bytes
unfolding finish_bvlc
length-finish_bvlc w = ground (
  arith,
  length-set (set w.bytes 2 (as_u8 (length w.bytes / 2 ^ 8))) 3 (as_u8 (length w.bytes)),
  length-set w.bytes 2 (as_u8 (length w.bytes / 2 ^ 8)),
)

-- So what grew from an empty buffer of some capacity is sent within it.
pub finish_bvlc-fits :
    {capacity : ℕ} (w : Writer) → Grows (fresh capacity) w → length (finish_bvlc w) ≤ capacity
finish_bvlc-fits w g = omega (arith, length-finish_bvlc w, g.bounded (omega arith))
