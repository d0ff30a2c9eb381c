-- ===== src/Teleop/Key.antt =====
-- From a key to a command, in TeleopKeyboard::spin (src/teleop_keyboard/teleop_keyboard.cpp).
use rob320_p.Base.{ℕ, ◌-◌, ◌^◌, ◌<◌, [], ◌∷◌, ◌&&◌, Option, none, some, ◌==◌, leb, if◌then◌else◌}
use rob320_p.Messages.Twist2DStamped.{Twist2DStamped}
use rob320_p.Util.Time
use rob320_p.Util.Time.{Time}

-- The doubles of the machine: 0.0, unary minus, and the conversion to a float, which is its bit pattern.
pub record Doubles : Type 1 where
  pub Double : Type 0
  pub nought : Double
  pub negate : Double → Double
  pub to_float : Double → ℕ
  pub to_float-lt : (x : Double) → to_float x < 2 ^ 32

-- isalpha and toupper in the C locale
unfoldable pub to_upper : ℕ → ℕ
to_upper c = if leb b'a' c && leb c b'z' then c - 32 else c

module _ (fp : Doubles) where
  open fp use {Double, nought, negate, to_float}

  -- The members linear_speed and angular_speed.
  pub record Speeds : Type 0 where
    pub linear : Double
    pub angular : Double

  pub record Velocity : Type 0 where
    pub vx : Double
    pub vy : Double
    pub wz : Double

  -- The `switch`; `none` is its default case, which clears `valid`.
  unfoldable pub velocity : Speeds → ℕ → Option Velocity
  velocity s c =
      if c == b'W'
      then some (record { vx = s.linear; vy = nought; wz = nought })
      else if c == b'A'
      then some (record { vx = nought; vy = s.linear; wz = nought })
      else if c == b'S'
      then some (record { vx = negate s.linear; vy = nought; wz = nought })
      else if c == b'D'
      then some (record { vx = nought; vy = negate s.linear; wz = nought })
      else if c == b'Q'
      then some (record { vx = nought; vy = nought; wz = s.angular })
      else if c == b'E'
      then some (record { vx = nought; vy = nought; wz = negate s.angular })
      else if c == b' '
      then some (record { vx = nought; vy = nought; wz = nought })
      else none

  -- The message of a valid key: `seq` is the number of those before it, and `now` is Time::now().
  unfoldable pub command : ℕ → Time → Velocity → Twist2DStamped
  command seq now v = record {
    header = record {
      seq = seq;
      stamp = Time.to_msg now;
      frame_id = b'm' ∷ b'b' ∷ b'o' ∷ b't' ∷ [];
    };
    twist = record { vx = to_float v.vx; vy = to_float v.vy; wz = to_float v.wz };
  }
