-- ===== src/Tests/Serialization.antt =====
-- The functions of include/rix/msg/serialization.hpp through a buffer of 64 bytes.
use rob320_p.Base.{
  ℕ, ◌+◌, ◌≤◌, ◌<◌, List, [], ◌∷◌, arith, All, IsByte, length, ◌^◌, to_bytes-IsByte, to_bytes,
}
use rob320_p.Memory.Delivery.{Delivered}
use rob320_p.Serialization.Size.{
  size_number, size_string, size_number_array, size_string_array, size_message_array,
  size_number_vector, size_string_vector, size_message_vector, size_message, add_sizes,
}
use rob320_p.Serialization.Serialize.{serialize_number, serialize_string, serialize_message_vector}
use rob320_p.Serialization.Deserialize.{
  deserialize_number, deserialize_string, deserialize_message_vector,
}
use rob320_p.Serialization.Delivery.{number-Delivered, string-Delivered, message_vector-Delivered}
use rob320_p.Serialization.Layout.{wire_string, counted}
use rob320_p.Messages.UInt32
use rob320_p.Messages.UInt32.{UInt32, uint32-IsCodec, uint32_message}
use rob320_p.Tests.Messages.{buffer, buffer-IsBuffer}

abbrev numbers : List ℕ
numbers = 300 ∷ 2 ∷ []

abbrev two_strings : List (List ℕ)
two_strings = (1 ∷ 2 ∷ []) ∷ [] ∷ []

abbrev messages : List UInt32
messages = record { value = 300 } ∷ record { value = 5 } ∷ []

short_strings_vector : length (counted wire_string two_strings) < 2 ^ 32
unfolding to_bytes
short_strings_vector = omega arith

short_messages_vector : length (counted UInt32.wire messages) < 2 ^ 32
unfolding to_bytes
short_messages_vector = omega arith

messages-AreBytes : All (λ m. All IsByte (UInt32.wire m)) messages
messages-AreBytes = (to_bytes-IsByte 4 300, (to_bytes-IsByte 4 5, tt))

number_room : 3 + size_number 2 300 ≤ length buffer
unfolding size_number size_string size_number_array size_string_array size_message_array
    size_number_vector size_string_vector size_message_vector size_message add_sizes UInt32.size
number_room = omega arith

number-Delivered_example :
    Delivered (serialize_number 2 300) (deserialize_number 2 0) 300 buffer 3 (size_number 2 300)
number-Delivered_example =
    number-Delivered 2 0 300 buffer 3 (omega arith) (omega arith) buffer-IsBuffer number_room

string_room : 3 + size_string (1 ∷ 2 ∷ []) ≤ length buffer
unfolding size_number size_string size_number_array size_string_array size_message_array
    size_number_vector size_string_vector size_message_vector size_message add_sizes UInt32.size
string_room = omega arith

string-Delivered_example :
    Delivered
      (serialize_string (1 ∷ 2 ∷ []))
      (deserialize_string [])
      (1 ∷ 2 ∷ [])
      buffer
      3
      (size_string (1 ∷ 2 ∷ []))
string-Delivered_example =
    string-Delivered [] (1 ∷ 2 ∷ []) buffer 3 (omega arith) (omega arith, (omega arith, tt))
      buffer-IsBuffer string_room

number_vector_room : 3 + size_number_vector 2 numbers ≤ length buffer
unfolding size_number size_string size_number_array size_string_array size_message_array
    size_number_vector size_string_vector size_message_vector size_message add_sizes UInt32.size
number_vector_room = omega arith

string_vector_room : 3 + size_string_vector two_strings ≤ length buffer
unfolding size_number size_string size_number_array size_string_array size_message_array
    size_number_vector size_string_vector size_message_vector size_message add_sizes UInt32.size
string_vector_room = omega arith

message_vector_room : 3 + size_message_vector messages ≤ length buffer
unfolding size_number size_string size_number_array size_string_array size_message_array
    size_number_vector size_string_vector size_message_vector size_message add_sizes UInt32.size
message_vector_room = omega arith

message_vector-Delivered_example :
    Delivered
      (serialize_message_vector messages)
      (deserialize_message_vector [])
      messages
      buffer
      3
      (size_message_vector messages)
message_vector-Delivered_example =
    message_vector-Delivered UInt32.wire UInt32.Fits uint32-IsCodec [] messages buffer 3
      (omega arith) short_messages_vector (omega arith, (omega arith, tt)) messages-AreBytes
      buffer-IsBuffer message_vector_room
