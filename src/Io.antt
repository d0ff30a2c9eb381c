-- ===== src/Io.antt =====
-- include/rix/ipc/interfaces/io.hpp and notification.hpp, as the two programs use them: the answers that
-- the environment gives, call after call. A run on such a list stops where the list ends, since
-- nothing is known of what comes next.
pub mod Stream
pub mod Interfaces
use rob320_p.Base.{ℕ, ◌≤◌, List, [], ◌∷◌, Bool, true, false, Option, none, some, All, ◌≡◌}

-- What `read` meets: bytes at hand (none of them at the end of the file, where it returns 0), or -1
-- with errno EINTR, with EAGAIN or EWOULDBLOCK, or with any other.
pub data Answer : Type 0 where
  bytes : List ℕ → Answer
  interrupted would_block broken : Answer

-- A pointer to a Notification: null, or the answers of its `wait(0)`, which are `false` from the end of
-- the list on.
abbrev pub Notif : Type 0
Notif = Option (List Bool)

-- `(notif != nullptr) && notif->wait(Duration(0.0))`
unfoldable pub notif_ready : Notif → Bool × Notif
notif_ready none = (false, none)
notif_ready (some []) = (false, some [])
notif_ready (some (b ∷ bs)) = (b, some bs)

-- The notification never comes.
abbrev pub IsQuiet : Notif → Type 0
IsQuiet none = Unit {0}
IsQuiet (some bs) = All (λ b. b ≡ false) bs
