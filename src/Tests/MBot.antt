-- ===== src/Tests/MBot.antt =====
-- Packets of include/mbot/messages.hpp.
use rob320_p.Base.{◌≡◌, [], ◌∷◌, ◌++◌, refl, replicate, some, arith, ◌+◌, ◌*◌, ◌/◌, to_bytes}
use rob320_p.MBot.{encode_msg, encoded}
use rob320_p.MBot.Packet.{packet, encode_msg-packet}
use rob320_p.Base.Int.{pos}
use rob320_p.Messages.Twist2DStamped.{Twist2DStamped, stamped_message}
use rob320_p.Ipc.File.{write}
use rob320_p.MBot.Drive.{drive, drive-velocities}
use rob320_p.Tests.ToyKernel.{toy_kernel}

encode_msg-packet_example :
    encode_msg (1 ∷ 2 ∷ []) 214 (replicate 10 0) ≡ encoded (packet (1 ∷ 2 ∷ []) 214)
encode_msg-packet_example = encode_msg-packet (1 ∷ 2 ∷ []) 214 (replicate 10 0) refl

abbrev port_state : toy_kernel.State
unfolding toy_kernel
port_state = record { opened = 0 ∷ 4 ∷ []; flags = λ n. 2; waiting = 0 }

abbrev ahead : Twist2DStamped
ahead = record stamped_message.init {
  header = record stamped_message.init.header { stamp = record { sec = 3; nsec = 5_000 } };
  twist = record { vx = 7; vy = 8; wz = 9 };
}

drive-velocities_example :
    drive toy_kernel (record { fd = pos 4 }) ahead (replicate 28 0) port_state
    ≡ some
        (write toy_kernel
          (record { fd = pos 4 })
          (packet
            (to_bytes 8 (3 * 1_000_000 + 5_000 / 1_000)
              ++ (to_bytes 4 7 ++ (to_bytes 4 8 ++ to_bytes 4 9)))
            214)
          port_state).1
unfolding toy_kernel
drive-velocities_example =
    drive-velocities toy_kernel (record { fd = pos 4 }) ahead (replicate 28 0) port_state refl
      (omega arith) (omega arith)
