-- ===== src/Programs/MBotDriver.antt =====
-- The function main of src/mbot_driver/main.cpp, with the file that the constructor of MBot opens
-- (src/mbot/mbot.cpp). The File and the Signal that it makes enter as what the loop meets at them, as in Driver.
pub mod Live
use rob320_p.Base.{ℕ, List, [], ◌∷◌, true, false}
use rob320_p.Io.{Answer, Notif}
use rob320_p.Ipc.Kernel.{Kernel}
use rob320_p.Ipc.File.{ok}
use rob320_p.MBot.Life.{open_port}
use rob320_p.Driver
use rob320_p.Driver.{spin}

-- The exit code, or the loop.
pub data Main : Type 0 where
  exits : ℕ → Main
  runs : Driver.Spin → Main

module _ (k : Kernel) where
  unfoldable pub main : ℕ → List Answer → Notif → k.State → Main
  unfolding open_port ok spin
  main fuel input notif s = elim (ok (open_port k s).0) [
    | false ↦ exits 1
    | true ↦ runs (spin fuel [] input notif)
  ]
