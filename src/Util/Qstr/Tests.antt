-- ===== src/Util/Qstr/Tests.antt =====
-- Two strings with the same two bytes.
use oscomp.Common.{ℕ}
use oscomp.Util.Memory.{Memory}
use oscomp.Util.Qstr.{Qstr, fnv1a, qstr_hash}

abbrev letters : Memory
letters a = 97

abbrev named : ℕ → Qstr
named name = record { name = name; len = 2; hash = qstr_hash fnv1a letters name 2 }
