-- ===== src/Examples.antt =====
-- The theorems at concrete inputs, with concrete functions for the code outside the repository.
mod Redaction
mod Settings
mod Tests
mod Tasks
mod CommandLine
mod Interface
mod Calls
mod Terminal
mod Macros
mod Services
use tanu.Prelude.{ℕ, List, [], ◌∷◌, map, Text, leb, ◌&&◌, if◌then◌else◌, ◌+◌, ◌-◌}

-- `to_lowercase` and `to_uppercase` on ASCII
abbrev pub lower : Text → Text
lower = map (λ c. if leb 65 c && leb c 90 then c + 32 else c)

abbrev pub upper : Text → Text
upper = map (λ c. if leb 97 c && leb c 122 then c - 32 else c)
