-- ===== src/Fragment/Examples.antt =====
-- The answer to a datagram that is too big.
use natporte.Base.{◌+◌, ◌%◌, ◌^◌, ◌≡◌, refl, some, from_list, from_list-IsBytes, arith}
use natporte.Fragment.{FnPacket, mk_fn_packet, is_quotable, last_addr}
use natporte.Fragment.Message.{Answers, mk_fn_packet-Answers}
use natporte.Samples.{config, request}

mk_fn_packet-Answers_example :
    (r : FnPacket) × (mk_fn_packet config 6 (from_list request) 30 ≡ some r)
    × (r.size ≡ 56)
    × (r.id ≡ (6 + 1) % 2 ^ 16)
    × Answers config (from_list request) r.buf
unfolding last_addr is_quotable
mk_fn_packet-Answers_example =
    mk_fn_packet-Answers config 6 (from_list request) 30 0xc0a801fe
      (from_list-IsBytes request (omega arith)) refl refl (omega arith)
