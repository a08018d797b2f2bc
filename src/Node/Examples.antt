-- ===== src/Node/Examples.antt =====
-- Keys of concrete ends.
use natporte.Base.{ℕ, ◌≡◌, ◌↔◌, refl, arith}
use natporte.Node.{Endpoint, var}
use natporte.Node.Keys.{var-injective}

-- 192.168.1.1 port 1000 and 192.168.1.2 port 1000, as a little-endian host reads them.
abbrev desk : Endpoint
desk = record { port = 0xe803; ip = 0x0101a8c0 }

abbrev lamp : Endpoint
lamp = record { port = 0xe803; ip = 0x0201a8c0 }

desk_key : var 17 desk ≡ 0x0011e8030101a8c0
unfolding var
desk_key = refl

var-injective_example : (var 17 desk ≡ var 6 lamp) ↔ (◌≡◌ {A = ℕ} 17 6 × (desk ≡ lamp))
var-injective_example = var-injective 17 6 desk lamp (omega arith) (omega arith)
