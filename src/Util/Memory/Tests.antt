-- ===== src/Util/Memory/Tests.antt =====
-- Bytes that count up from 1.
use oscomp.Common.{◌+◌, ◌≡◌}
use oscomp.Util.Memory.{Memory, memmove}
use oscomp.Util.Memory.Copy.{moved, memmove-moved}

abbrev counting : Memory
counting a = a + 1

memmove-moved_example : memmove counting 102 100 8 105 ≡ moved counting 102 100 8 105
memmove-moved_example = memmove-moved counting 102 100 8 105
