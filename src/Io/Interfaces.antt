-- ===== src/Io/Interfaces.antt =====
-- The abstract classes IO, Notification and MBotBase (include/rix/ipc/interfaces and include/mbot/mbot_base.hpp),
-- over a state that their objects share.
use rob320_p.Base.{ℕ, List, Bool, Option}
use rob320_p.Base.Int.{ℤ, pos}
use rob320_p.Messages.Twist2DStamped.{Twist2DStamped}
use rob320_p.Util.Duration.{Duration}
use rob320_p.Io.{Answer}

module _ {ℓ} (S : Type ℓ) where
  -- class IO
  pub record Channel : Type ℓ where
    pub read : ℕ → S → Answer × S
    pub write : List ℕ → S → ℤ × S
    pub wait_for_writable : Duration → S → Bool × S
    pub wait_for_readable : Duration → S → Bool × S
    pub set_nonblocking : Bool → S → S
    pub is_nonblocking : S → Bool

  -- class Notification; `none` is a call that does not return.
  pub record Notification : Type ℓ where
    pub raise : S → Bool × S
    pub wait : Duration → S → Option (Bool × S)

  pub record MBotBase : Type ℓ where
    pub is_ok : S → Bool
    pub drive : Twist2DStamped → S → S

-- Duration(0.0)
abbrev pub no_time : Duration
no_time = record { d = pos 0 }

module _ {ℓ} {S : Type ℓ} where
  unfoldable pub is_writable : Channel S → S → Bool × S
  is_writable c = c.wait_for_writable no_time

  unfoldable pub is_readable : Channel S → S → Bool × S
  is_readable c = c.wait_for_readable no_time

  unfoldable pub is_ready : Notification S → S → Option (Bool × S)
  is_ready n = n.wait no_time
