-- ===== src/Program/Invariant.antt =====
-- What holds of the shared state in every run of the program.
use natporte.Base.{
  ℕ, ◌*◌, ◌^◌, ◌≤◌, ◌≡◌, refl, subst, Bool, Option, none, some, List, [], ◌∷◌, ◌++◌, arith,
}
use natporte.Filter.{Config}
use natporte.Node.{Node}
use natporte.Ring.Inv.{ring_init-IsValid}
use natporte.System.{System, done, exits, fault, Kernel}
use natporte.System.Inv.{IsSystem}
use natporte.System.Preserves.{Preserves, Guards, Preserves-Guards}
use natporte.Divert.Keeps.{divert_step-Preserves}
use natporte.Timer.Keeps.{timer_step-Preserves}
use natporte.Pool.{Message}
use natporte.Pool.Keeps.{sender_step-Preserves}
use natporte.Pool.Answers.{IsFresh}
use natporte.Pool.Handled.{FitsMessage, receive-Guards}
use natporte.Pool.Receiver.{receive}
use natporte.Pool.Lines.{split}
use natporte.Pool.Step.{lines_and_rest, read_text, receiver_step}
use natporte.RbTree.Members.{In}
use natporte.Program.{
  IsUnused, start, Env, Step, divert, sender, receiver, timer, Reach, here, next,
}

start-IsSystem :
    (memory : ℕ → Node) (fresh_send fresh_recv : ℕ → ℕ) (rb_size : ℕ)
    → rb_size * 100 ≤ 2 ^ 31
    → IsSystem (start memory fresh_send fresh_recv rb_size)
start-IsSystem memory fresh_send fresh_recv rb_size small = record {
  table =
      unfold start in
      record {
        l2w_balanced = record { root = refl; no_red_red = tt; even = tt };
        w2l_balanced = record { root = refl; no_red_red = tt; even = tt };
        l2w_sorted = tt;
        w2l_sorted = tt;
        entries = λ p i. elim i [ ];
        in_w2l = λ p i. i;
        in_l2w = λ p i. i;
      };
  send = unfold start in (ring_init-IsValid fresh_send rb_size (omega arith)).0;
  recv = unfold start in (ring_init-IsValid fresh_recv (rb_size * 100) small).0;
  sound = unfold start in refl;
}

-- The parser reads members of the widths that are asked of it.
abbrev pub ReadsWidths : (List ℕ → Option Message) → Type 0
ReadsWidths parse = (line : List ℕ) (m : Message) → parse line ≡ some m → FitsMessage m

read-Preserves :
    (received : Option (List ℕ)) (s : System) → IsSystem s → Preserves (read_text received s)
unfolding read_text
read-Preserves none s v = tt
read-Preserves (some []) s v = tt
read-Preserves (some (x ∷ xs)) s v = go (lines_and_rest (split (s.text ++ x ∷ xs)))
  where
    go :
        (r : Option (List (List ℕ) × List ℕ))
        → Preserves (elim r [
          | none ↦ fault
          | some (ls, rest) ↦ done (record s { pending = ls; text = rest })
        ])
    go none = tt
    go (some (ls, rest)) = record { table = v.table; send = v.send; recv = v.recv; sound = v.sound }

receiver-Guards :
    (k : Kernel) (c : Config) (now : ℕ) (opt_reset : Bool) (parse : List ℕ → Option Message) (p : ℕ)
    (received : Option (List ℕ)) (s : System)
    → ReadsWidths parse
    → IsFresh s.globals.table p
    → IsSystem s
    → Guards (receiver_step k c now opt_reset parse p received s)
unfolding receiver_step
receiver-Guards k c now opt_reset parse p received s widths fresh v = go s.pending
  where
    handled :
        (rest : List (List ℕ)) (line : List ℕ) (m : Option Message)
        → parse line ≡ m
        → Guards (elim m [
          | none ↦ exits
          | some m ↦ receive k c now opt_reset p m (record s { pending = rest })
        ])
    handled rest line none e = tt
    handled rest line (some m) e =
        receive-Guards k c now opt_reset p m (record s { pending = rest }) (widths line m e) fresh
          (record { table = v.table; send = v.send; recv = v.recv; sound = v.sound })

    go :
        (lines : List (List ℕ))
        → Guards (elim lines [
          | [] ↦ read_text received s
          | line ∷ rest ↦ elim (parse line) [
            | none ↦ exits
            | some m ↦ receive k c now opt_reset p m (record s { pending = rest })
          ]
        ])
    go [] = Preserves-Guards (read_text received s) (read-Preserves received s v)
    go (line ∷ rest) = handled rest line (parse line) refl

IsUnused-IsFresh : (s : System) (p : ℕ) → IsSystem s → IsUnused s p → IsFresh s.globals.table p
IsUnused-IsFresh s p v unused i = subst (λ ps. In p ps) v.sound (unused i)

Step-IsSystem :
    (e : Env) (s t : System)
    → ReadsWidths e.parse
    → Step e s t
    → IsSystem s
    → t.dangling ≡ []
    → IsSystem t
Step-IsSystem e s t widths (divert k now n fresh received h) v sound =
    subst Preserves h (divert_step-Preserves k e.config n fresh e.args now received s v)
Step-IsSystem e s t widths (sender k now h) v sound =
    subst Preserves h (sender_step-Preserves k now s v)
Step-IsSystem e s t widths (receiver k now p received unused h) v sound =
    subst Guards h
      (receiver-Guards k e.config now e.opt_reset e.parse p received s widths
        (IsUnused-IsFresh s p v unused) v)
      sound
Step-IsSystem e s t widths (timer k now event h) v sound =
    subst Preserves h (timer_step-Preserves k e.node_size now event s v)

-- In none of the states of a run has an entry been freed while the table had it.
abbrev pub NoneFreed : {e : Env} {s t : System} → Reach e s t → Type 0
NoneFreed here = Unit
NoneFreed (next {t} {u} before step) = NoneFreed before × (u.dangling ≡ [])

-- In every state that the program reaches by a run in which no entry is freed while the table
-- has it, as the receiver does when the pool discards the release of an entry that has timed
-- out, the table is good and both rings are valid. The run starts with empty trees and rings of
-- `rb_size` and `rb_size * 100` slots, the second number at most 2 ^ 31, and takes steps of the
-- divert thread, the two pool threads and the timer loop in any order, whatever the operating
-- system answers them. `malloc` gives the receiver no memory of an entry of the table that is
-- not freed, and the parser of the pool's messages reads members of the widths asked for.
pub Reach-IsSystem :
    (e : Env) (memory : ℕ → Node) (fresh_send fresh_recv : ℕ → ℕ) (rb_size : ℕ) (s : System)
    → rb_size * 100 ≤ 2 ^ 31
    → ReadsWidths e.parse
    → (run : Reach e (start memory fresh_send fresh_recv rb_size) s) → NoneFreed run
    → IsSystem s
Reach-IsSystem e memory fresh_send fresh_recv rb_size s small widths here kept =
    start-IsSystem memory fresh_send fresh_recv rb_size small
Reach-IsSystem e memory fresh_send fresh_recv rb_size s small widths (next {t} before step) kept =
    Step-IsSystem e t s widths step
      (Reach-IsSystem e memory fresh_send fresh_recv rb_size t small widths before kept.0) kept.1
