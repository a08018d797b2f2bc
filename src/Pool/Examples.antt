-- ===== src/Pool/Examples.antt =====
-- A granted request: the datagram of an unknown flow goes out from the port that the pool gave.
use natporte.Base.{
  ℕ, ◌≡◌, ◌≢◌, refl, inl, some, List, [], ◌∷◌, from_list, from_list-IsBytes, load16, load32, htonl,
  htons, arith,
}
use natporte.Filter.{chk_selfaddr, chk_drop, is_too_big, is_private, is_class_d, has_df}
use natporte.RbTree.{leaf, find}
use natporte.Table.{find_l2w, find_w2l}
use natporte.Table.Inv.{IsTable}
use natporte.Alias.{Globals}
use natporte.System.{System, done, success, other_error, Ends, Datagram}
use natporte.System.Samples.{kernel, system_with, system_with-IsSystem}
use natporte.Pool.{zero_node}
use natporte.Pool.Granted.{Opens}
use natporte.Pool.Opened.{Opened}
use natporte.Pool.Lines.{split, first_field, find_from, split_from}
use natporte.Pool.Lines.Search.{join, AllNoFeed}
use natporte.Pool.Lines.Fields.{split-Splits}
use natporte.Pool.Step.{read_text, lines_and_rest}
use natporte.Pool.Chunks.{read_text-pieces}
use natporte.Base.{false}
use natporte.Node.{mk_node}
use natporte.Ring.{ring_s_push, ring_init}
use natporte.Ring.Inv.{contents}
use natporte.Ring.Refine.{ring_s_push_refines}
use natporte.System.Inv.{IsSystem}
use natporte.Pool.{request_ack, ends_of}
use natporte.Pool.Receiver.{receive}
use natporte.Pool.Granting.{waiting, receive-Opened}
use natporte.TcpState.{established}
use natporte.Table.Live.{is_live}
use natporte.System.{entry, fault}
use natporte.System.Samples.{system_in}
use natporte.Pool.Receiver.{free_block, on_release_discard, on_request_discard}
use natporte.Samples.{config, request}

-- 192.168.1.1 port 1000 behind 192.0.2.1 port 4098.
abbrev grant : Ends
grant = record {
  protocol = 17;
  lan_ip = 0xc0a80101;
  wan_ip = 0xc0000201;
  lan_port = 1000;
  wan_port = 4098;
}

abbrev empty : Globals
empty = record {
  table = record { entry = λ p. zero_node; l2w = leaf; w2l = leaf };
  icmp_bucket = record { local_ip = 0; foreign_ip = 0 };
}

empty-IsTable : IsTable empty.table
empty-IsTable = record {
  l2w_balanced = record { root = refl; no_red_red = tt; even = tt };
  w2l_balanced = record { root = refl; no_red_red = tt; even = tt };
  l2w_sorted = tt;
  w2l_sorted = tt;
  entries = λ p i. absurd i;
  in_w2l = λ p i. i;
  in_l2w = λ p i. i;
}

request-Opens : Opens config (from_list request) 30
unfolding chk_selfaddr chk_drop is_too_big load32 load16 htonl is_private is_class_d has_df htons
request-Opens = record {
  long = refl;
  version = refl;
  allowed = refl;
  small = refl;
  foreign = refl;
  kind = inl refl;
}

success_ne : success ≢ other_error
success_ne e = cc

-- The request waits for its answer.
abbrev waits : System
waits = record (system_with empty) {
  h_recv = (ring_s_push (system_with empty).h_recv (waiting (from_list request) 30)).1;
}

waits-IsSystem : IsSystem waits
waits-IsSystem =
    let v = system_with-IsSystem empty empty-IsTable in
    record {
      table = v.table;
      send = v.send;
      recv =
          (ring_s_push_refines (system_with empty).h_recv (waiting (from_list request) 30)
            v.recv).1.0;
      sound = v.sound;
    }

receive-Opened_example :
    (t : System) × (d : Datagram) × (receive kernel config 7 false 1 (request_ack grant) waits
      ≡ done t)
    × Opened waits t 1 grant (from_list request) d
    × (contents t.h_recv ≡ [])
unfolding find_l2w find_w2l find load16 load32 htonl htons mk_node ring_s_push ring_init
receive-Opened_example =
    receive-Opened kernel config 7 false 1 grant (from_list request) 30 success_ne refl
      request-Opens (from_list-IsBytes request (omega arith)) (omega arith)
      (record {
        protocol_u8 = omega arith;
        lan_ip_u32 = omega arith;
        wan_ip_u32 = omega arith;
        lan_port_u16 = omega arith;
        wan_port_u16 = omega arith;
      })
      waits 6 (ends_of (mk_node (from_list request) 30 zero_node).1) [] [] waits-IsSystem refl
      ((from_list request, refl, refl, refl), tt) refl refl refl (λ i. i) (refl, refl)

-- "ab", "" and "c".
abbrev text : List ℕ
text = 97 ∷ 98 ∷ 10 ∷ 10 ∷ 99 ∷ []

split-Splits_example : (join (split text) ≡ text) × AllNoFeed (split text)
split-Splits_example = split-Splits text (λ e. omega (arith, e))

abbrev half_read : System
half_read = record (system_with empty) { pending = (97 ∷ []) ∷ []; text = 98 ∷ [] }

read_text-pieces_example :
    (u : System) × (read_text (some (99 ∷ 10 ∷ [])) half_read ≡ done u)
    × (read_text (some (97 ∷ 10 ∷ 98 ∷ 99 ∷ 10 ∷ [])) (system_with empty)
        ≡ done (record u { pending = (97 ∷ []) ∷ u.pending }))
unfolding read_text split first_field find_from split_from lines_and_rest
read_text-pieces_example =
    read_text-pieces 97 (10 ∷ 98 ∷ []) 99 (10 ∷ []) (system_with empty) half_read refl
      (λ e. omega (arith, e)) (λ e. omega (arith, e))

-- The entry that has timed out is freed, and the trees still lead to it.
discard_frees :
    on_release_discard (entry 0) 200 0x40 (system_in 6 established)
    ≡ done (record (system_in 6 established) { dangling = 0 ∷ [] })
unfolding on_release_discard free_block is_live
discard_frees = refl

-- To free it once more is a fault.
freed_twice :
    on_request_discard kernel false
      (entry 0)
      200
      0x40
      (record (system_in 6 established) { dangling = 0 ∷ [] })
    ≡ fault
unfolding on_request_discard free_block is_live
freed_twice = refl
