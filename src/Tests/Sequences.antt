-- ===== src/Tests/Sequences.antt =====
-- A sequence of the rules 4 and 7, within ten seconds.
use alca.Base.{ℕ, ◌≡◌, refl, true, false, none, some, List, [], ◌∷◌, length, ◌⊎◌, Bytes}
use alca.Arena.{Arena}
use alca.Compiler.Tables.{SequenceEntry}
use alca.Vm.Sequences.{
  Timeval, no_time, MonRule, Sequence, Triggers, check_sequence, vm_update_sequences, new_sequence,
}
use alca.Vm.SequenceOrder.{Fires, Chronological, check_sequence-Fires}
use alca.Vm.SequenceUpdate.{
  IsWatched, AreWatched, Updated, update_sequence-Updated, update_sequences-AreWatched,
  new_sequence-IsWatched,
}
use alca.Tests.Maps.{rule_map, string_map}

abbrev RulesMap : Type 0
RulesMap = List (ℕ × MonRule)

abbrev entry : SequenceEntry
entry = record {
  flags = 0;
  max_span = 10;
  rule_count = 2;
  lname = 1;
  name_offset = 0;
  rule_indices = 4 ∷ 7 ∷ [];
}

abbrev time : ℕ → ℕ → Timeval
time s u = record { tv_sec = s; tv_usec = u }

abbrev seen : Timeval → MonRule
seen t = record { name = none; trigger = t }

abbrev monitored : RulesMap
monitored = (4, seen (time 100 5)) ∷ (7, seen (time 101 6)) ∷ []

abbrev watched : Sequence RulesMap
watched = record { max_span = 10; rule_indices = 4 ∷ 7 ∷ []; monitored_rules = monitored }

abbrev no_triggers : Triggers
no_triggers = record { reports = []; ntriggers = 0 }

check_sequence-Fires_example :
    ((check_sequence monitored 10 (4 ∷ 7 ∷ []) ≡ some true)
      × Fires 10 (time 100 5 ∷ time 101 6 ∷ [])
      × Chronological no_time (time 100 5 ∷ time 101 6 ∷ []))
    ⊎ ((check_sequence monitored 10 (4 ∷ 7 ∷ []) ≡ some false)
        × ¬ Fires 10 (time 100 5 ∷ time 101 6 ∷ []))
check_sequence-Fires_example =
    check_sequence-Fires monitored 10 (4 ∷ 7 ∷ []) (time 100 5 ∷ time 101 6 ∷ [])
      ((seen (time 100 5), refl, refl), ((seen (time 101 6), refl, refl), tt))

watched-IsWatched : IsWatched watched
watched-IsWatched = ((seen (time 100 5), refl), ((seen (time 101 6), refl), tt))

update_sequence-Updated_example :
    Updated (some 1 ∷ []) (some (115 ∷ [])) 7 (seen (time 103 9)) watched no_triggers
update_sequence-Updated_example =
    update_sequence-Updated (some 1 ∷ []) (some (115 ∷ [])) 7 (seen (time 103 9)) watched
      no_triggers watched-IsWatched

abbrev no_strings : Arena (List (Bytes × ℕ))
no_strings = record { content = []; size = 0; capacity = 64; strmap = [] }

update_sequences-AreWatched_example :
    (ss : List (Sequence RulesMap)) × (t : Triggers) × (vm_update_sequences no_strings
        (some 1 ∷ [])
        (entry ∷ [])
        7
        (seen (time 103 9))
        (watched ∷ [])
        no_triggers
      ≡ some (ss, t))
    × AreWatched ss
    × (length ss ≡ 1)
update_sequences-AreWatched_example =
    update_sequences-AreWatched no_strings (some 1 ∷ []) (entry ∷ []) 7 (seen (time 103 9))
      (watched ∷ []) no_triggers refl (watched-IsWatched, tt)

new_sequence-IsWatched_example : IsWatched (new_sequence {Q = RulesMap} entry)
new_sequence-IsWatched_example = new_sequence-IsWatched RulesMap entry
