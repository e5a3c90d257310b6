-- ===== src/Strings/Tests.antt =====
-- The theorems about string.c on a small memory.
use cs.Common.{◌≡◌, refl, ltb, if◌then◌else◌, some}
use cs.Strings.{Memory, memmove, strlen, move_down}

-- Address `a` holds `a` below 10, and 0 from there on.
abbrev counting : Memory
counting a = if ltb a 10 then a else 0

moved : memmove 3 2 4 counting 6 ≡ 5
unfolding memmove move_down
moved = refl

length_is_seven : strlen 20 3 counting ≡ some 7
unfolding strlen
length_is_seven = refl
