-- ===== src/Prelude/Kv.antt =====
-- The key-value store of the platform, as an interface of its reads and writes. It is eventually
-- consistent and forgets a value after its time to live, so nothing is said of what a read gives after
-- a write: a statement that needs it has it as a hypothesis on that read.
use Prim.Native.Nat.{ℕ}
use mathlib.Core.Option.{Option, some}
use globaltracker.Prelude.Tests.{if◌then◌else◌}
use globaltracker.Prelude.Texts.{Text, text_eq}

pub record Kv (S : Type 0) : Type 0 where
  pub get : Text → S → Option Text
  pub put : Text → Text → Option ℕ → S → S

-- A store that is a function from keys, to run the code with.
abbrev pub memory : Kv (Text → Option Text)
memory = record { get = λ k s. s k; put = λ k v ttl s. λ l. if text_eq k l then some v else s l }
