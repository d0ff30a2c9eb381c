-- ===== src/Message.antt =====
-- include/rix/msg/message.hpp: the abstract class Message, and what a class that derives from it
-- promises about the bytes that it reads and writes.
use rob320_p.Base.{ℕ, ◌≡◌, ◌<◌, ◌^◌, List, Option, length}
use rob320_p.Memory.{Out, Reader, write}
use rob320_p.Memory.Readers.{IsBounded, Decodes}

-- The virtual functions, for a class `A`. `init` is the value-initialised object, `A{}`.
pub record Message (A : Type 0) : Type 0 where
  pub init : A
  pub size : A → ℕ
  pub hash : A → ℕ × ℕ
  pub serialize : A → Out → Option Out
  pub deserialize : A → Reader A

-- `wire` is the encoding of a value, and `Fits` says which values the fixed-width fields hold.
pub record IsCodec {A : Type 0} (m : Message A) (wire : A → List ℕ) (Fits : A → Type 0)
    : Type 0 where
  pub short_wire : (a : A) → Fits a → length (wire a) < 2 ^ 32
  pub size-wire : (a : A) → Fits a → m.size a ≡ length (wire a)
  pub serialize-wire : (a : A) (o : Out) → Fits a → m.serialize a o ≡ write (wire a) o
  pub deserialize-wire : (a old : A) → Fits a → Decodes (m.deserialize old) a (wire a)
  pub deserialize-IsBounded : (old : A) → IsBounded (m.deserialize old)
