-- ===== src/Tests/Data.antt =====
-- Strings, packets and instructions.
use alca.Base.{
  ℕ, ◌≡◌, refl, false, some, List, [], ◌∷◌, ◌++◌, if◌then◌else◌, ltb, arith, Bytes, ◌≤◌, ◌<◌, none,
  ◌⊎◌, length,
}
use alca.Base.Words.{word_mod}
use alca.Arena.{Arena, append_bytes, grow, ac_arena_add_string}
use alca.Arena.Invariant.{IsArena, grow_enough, append_bytes-IsArena}
use alca.Arena.Strings.{IsSound, Adds, add_string-Adds}
use alca.Bytecode.Emit.{binary_opcode, unary_opcode}
use alca.Context.{word, str, array, value, no_values, Object}
use alca.Compiler.Tables.{RuleEntry, ac_compiler_find_rule_idx_by_name}
use alca.Compiler.Lookup.{FirstAt, Absent, find_rule_idx-FirstAt}
use alca.Syntax
use alca.Vm.Text.{contains, startswith, endswith, is_prefix}
use alca.Semantics.Operators.{occurs, is_suffix, binary_meaning, unary_meaning}
use alca.Semantics.Strings.{contains-occurs, startswith-is_prefix, endswith-is_suffix}
use alca.Semantics.Agree.{binary_answer, unary_answer, binary_agree, unary_agree}
use alca.Packet.{
  PacketHeader, Packet, ac_bswap, ac_packet_create, ac_packet_set_data, ac_packet_serialize,
  ac_packet_read, header_bytes, refused, packet, max_recv_size,
}
use alca.Packet.RoundTrip.{
  Received, packet_read-packet_serialize, packet_read-header_bytes, ac_bswap-ac_bswap,
}
use alca.Tests.Maps.{string_map}

abbrev StringsMap : Type 0
StringsMap = List (Bytes × ℕ)

abbrev empty_arena : Arena StringsMap
empty_arena = record { content = []; size = 0; capacity = 64; strmap = [] }

empty_arena-IsArena : IsArena empty_arena
empty_arena-IsArena = record { sized = refl; fits = omega arith; small = omega arith }

empty_arena-IsSound : IsSound empty_arena
empty_arena-IsSound = record { sound = λ s o e. cc }

add_string-Adds_example :
    Adds empty_arena (102 ∷ 105 ∷ []) (ac_arena_add_string empty_arena (102 ∷ 105 ∷ []) 2)
add_string-Adds_example =
    add_string-Adds empty_arena (102 ∷ 105 ∷ []) (omega arith, (omega arith, tt)) (omega arith)
      empty_arena-IsArena empty_arena-IsSound

append_bytes-IsArena_example : IsArena (append_bytes empty_arena (1 ∷ 2 ∷ 3 ∷ []))
append_bytes-IsArena_example =
    append_bytes-IsArena (1 ∷ 2 ∷ 3 ∷ []) empty_arena-IsArena (omega arith)

grow_enough_example : (100 ≤ grow 50 100 64) × (64 ≤ grow 50 100 64) × (grow 50 100 64 < word_mod)
grow_enough_example = grow_enough 50 100 64 (omega arith) (omega arith) (omega arith)

contains-occurs_example :
    contains (97 ∷ 98 ∷ 99 ∷ []) (98 ∷ 99 ∷ []) ≡ occurs (98 ∷ 99 ∷ []) (97 ∷ 98 ∷ 99 ∷ [])
contains-occurs_example = contains-occurs (97 ∷ 98 ∷ 99 ∷ []) (98 ∷ 99 ∷ [])

startswith-is_prefix_example :
    startswith (97 ∷ 98 ∷ 99 ∷ []) (97 ∷ 98 ∷ []) ≡ is_prefix (97 ∷ 98 ∷ []) (97 ∷ 98 ∷ 99 ∷ [])
startswith-is_prefix_example = startswith-is_prefix (97 ∷ 98 ∷ 99 ∷ []) (97 ∷ 98 ∷ [])

endswith-is_suffix_example :
    endswith (97 ∷ 98 ∷ 99 ∷ []) (98 ∷ 99 ∷ []) ≡ is_suffix (98 ∷ 99 ∷ []) (97 ∷ 98 ∷ 99 ∷ [])
endswith-is_suffix_example = endswith-is_suffix (97 ∷ 98 ∷ 99 ∷ []) (98 ∷ 99 ∷ [])

binary_agree_example :
    binary_answer (binary_opcode Syntax.minus Syntax.number) (word 3) (word 5)
    ≡ binary_meaning Syntax.minus Syntax.number (word 3) (word 5)
binary_agree_example = binary_agree Syntax.minus Syntax.number (word 3) (word 5)

unary_agree_example :
    unary_answer (unary_opcode Syntax.hash) (str (97 ∷ []))
    ≡ unary_meaning Syntax.hash (str (97 ∷ []))
unary_agree_example = unary_agree Syntax.hash (str (97 ∷ []))

abbrev sent_packet : Packet
sent_packet = ac_packet_set_data (ac_packet_create 2 20) (1 ∷ 2 ∷ []) 7

packet_read-packet_serialize_example :
    (sent : Bytes) × (ac_packet_serialize sent_packet ≡ some (sent, length sent))
    × (ac_packet_read sent ≡ (if ltb max_recv_size 2 then refused else packet sent_packet))
packet_read-packet_serialize_example =
    packet_read-packet_serialize 2 20 7 (1 ∷ 2 ∷ []) (omega arith) (omega arith) (omega arith)
      (omega arith)

abbrev greedy_header : PacketHeader
greedy_header = record {
  magic = 1;
  version = 1;
  packet_type = 2;
  data_type = 20;
  data_len = 9;
  sequence = 0;
}

packet_read-header_bytes_example :
    Received greedy_header
      (1 ∷ 2 ∷ [])
      (ac_packet_read (header_bytes greedy_header ++ (1 ∷ 2 ∷ [])))
packet_read-header_bytes_example = packet_read-header_bytes greedy_header (1 ∷ 2 ∷ []) record {
  magic = omega arith;
  version = omega arith;
  packet_type = omega arith;
  data_type = omega arith;
  data_len = omega arith;
  sequence = omega arith;
}

ac_bswap-ac_bswap_example : ac_bswap false (ac_bswap false 305419896) ≡ 305419896
ac_bswap-ac_bswap_example = ac_bswap-ac_bswap false 305419896 (omega arith)

abbrev named_arena : Arena StringsMap
named_arena = record {
  content = 114 ∷ 0 ∷ [];
  size = 2;
  capacity = 64;
  strmap = (114 ∷ [], 0) ∷ [];
}

abbrev rule_table : List RuleEntry
rule_table =
    record { flags = 0; code_offset = 0; module_ordinal = 1; lname = 1; name_offset = 0 } ∷ []

find_rule_idx-FirstAt_example :
    ((i : ℕ) × (ac_compiler_find_rule_idx_by_name named_arena rule_table (114 ∷ []) ≡ some i)
      × FirstAt named_arena (114 ∷ []) rule_table i)
    ⊎ ((ac_compiler_find_rule_idx_by_name named_arena rule_table (114 ∷ []) ≡ none)
        × Absent named_arena (114 ∷ []) rule_table)
find_rule_idx-FirstAt_example = find_rule_idx-FirstAt named_arena rule_table (114 ∷ [])

abbrev list_object : Object StringsMap
list_object = record {
  is_const = false;
  name = 110 ∷ [];
  version = 0;
  fields = [];
  field_type = 268435460;
  content = array (value (word 3) no_values);
  function = none;
  arg_count = 0;
  arg_types = [];
}
