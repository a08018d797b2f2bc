-- ===== src/Table/Examples.antt =====
-- A table of one entry, and a second one to put into it.
use natporte.Base.{
  ℕ, ◌+◌, ◌<◌, Bool-cases, inr, ◌≡◌, refl, arith, ◌==◌, if◌then◌else◌, some, none, inl,
}
use natporte.TcpState.{established}
use natporte.Node.{Node, Endpoint, timer_loop, var, var_lan, var_wan}
use natporte.RbTree.{leaf, node, black, red, insert, insert_color, find}
use natporte.Table.{Table, s_insert, s_delete_for_point, s_delete_for_value}
use natporte.Table.Inv.{IsTable, IsEntry}
use natporte.Table.Update.{Stored, s_insert-Stored}
use natporte.Table.Value.{Deleted, s_delete_for_value-Deleted}
use natporte.Table.Delete.{Without, s_delete_for_point-Without}

-- UDP from 192.168.1.1, the port given, as 192.0.2.1 with the same port plus 1.
abbrev flow : ℕ → Node
flow port =
    let lan : Endpoint = record { port = port; ip = 0x0101a8c0 } in
    let wan : Endpoint = record { port = port + 1; ip = 0x010200c0 } in
    record {
      ctime = 0;
      atime = 0;
      flags = established;
      timer_flags = timer_loop;
      protocol = 17;
      wan = wan;
      lan = lan;
      l2w_key = var 17 lan;
      w2l_key = var 17 wan;
    }

abbrev table : Table
table = record {
  entry = λ p. if p == 0 then flow 1000 else flow 1001;
  l2w = node black leaf 0 leaf;
  w2l = node black leaf 0 leaf;
}

flow-IsEntry : (port : ℕ) → port < 2000 → IsEntry (flow port)
unfolding var_lan var_wan
flow-IsEntry port small = record {
  lan_fits = omega arith;
  wan_fits = omega arith;
  l2w_keyed = refl;
  w2l_keyed = refl;
}

table-IsTable : IsTable table
table-IsTable = record {
  l2w_balanced = record { root = refl; no_red_red = (tt, tt); even = (refl, tt, tt) };
  w2l_balanced = record { root = refl; no_red_red = (tt, tt); even = (refl, tt, tt) };
  l2w_sorted = (tt, tt);
  w2l_sorted = (tt, tt);
  entries = λ p i. elim (Bool-cases (p == 0)) [
    | inl e ↦ rw e (flow-IsEntry 1000 (omega arith))
    | inr e ↦ rw e (flow-IsEntry 1001 (omega arith))
  ];
  in_w2l = λ p i. i;
  in_l2w = λ p i. i;
}

second-IsEntry : IsEntry (table.entry 1)
second-IsEntry = flow-IsEntry 1001 (omega arith)

-- The second entry goes below the first in both trees.
second_in :
    s_insert table 1
    ≡ some (
      none,
      record table {
        l2w = node black leaf 0 (node red leaf 1 leaf);
        w2l = node black leaf 0 (node red leaf 1 leaf);
      },
    )
unfolding s_insert insert insert_color var
second_in = refl

s_insert-Stored_example : Stored table 1 (s_insert table 1)
s_insert-Stored_example = s_insert-Stored table 1 table-IsTable second-IsEntry

s_delete_for_point-Without_example :
    (u : Table) × (s_delete_for_point table 0 ≡ some (some 0, u)) × Without 0 table u
s_delete_for_point-Without_example = s_delete_for_point-Without table 0 table-IsTable (inl refl)

-- The first entry asked for by its ends.
s_delete_for_value-Deleted_example :
    Deleted table (flow 1000) (s_delete_for_value table (flow 1000))
s_delete_for_value-Deleted_example = s_delete_for_value-Deleted table (flow 1000) table-IsTable

by_value :
    s_delete_for_value table (flow 1000) ≡ some (some 0, record table { l2w = leaf; w2l = leaf })
unfolding s_delete_for_value var find natporte.RbTree.Remove.remove
by_value = refl
