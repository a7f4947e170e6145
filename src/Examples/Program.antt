-- ===== src/Examples/Program.antt =====
-- What the example programs take from Rust: output, and the operator `?` in front of code that
-- prints and may panic.
use tonic_transport_native.Common.{◌≡◌, refl, List, [], ◌++◌, Bytes}
use tonic_transport_native.Runtime.{Result, ok, err, Exec, done, ◌>>=◌}

-- The lines that a piece of code prints, and what it comes to.
abbrev pub Printed : Type 0 → Type 0
Printed A = List Bytes × A

-- A `main` comes to a result; the lines that it printed stay printed when that is an error.
abbrev pub Program : Type 0 → Type 0 → Type 0
Program A E = Exec (Printed (Result A E))

abbrev pub and_then : {A B E : Type 0} → Result A E → (A → Program B E) → Program B E
and_then (err e) next = done ([], err e)
and_then (ok a) next = next a

-- `println!` in front of more code.
abbrev pub println : {A : Type 0} → List Bytes → Exec (Printed A) → Exec (Printed A)
println line rest = do (more, a) ← rest; done (line ++ more, a)

-- What comes to a value has a first part that does.
pub and_then_ok :
    {A B E : Type 0} (r : Result A E) (next : A → Program B E) (lines : List Bytes) (b : B)
    → and_then r next ≡ done (lines, ok b)
    → (a : A) × (r ≡ ok a) × (next a ≡ done (lines, ok b))
and_then_ok (ok a) next lines b h = (a, refl, h)
and_then_ok (err e) next lines b h = cc
