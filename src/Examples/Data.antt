-- ===== src/Examples/Data.antt =====
-- What the examples share.
use forward.Prelude.{
  ℕ, zero, suc, true, none, some, List, [], ◌∷◌, arith, Text, codes, All, ◌==◌, if◌then◌else◌,
}
use forward.Containment.{Kernel}
use forward.Grants.Scope.{Scope, session, tty}
use forward.Grants.Registry.{Registration}
use forward.Grants.Table.{FileIdentity, GrantOrigin}
use forward.Hex.{IsByte}

-- Some bytes, all different.
abbrev pub bytes_up_to : ℕ → List ℕ
bytes_up_to zero = []
bytes_up_to (suc n) = n ∷ bytes_up_to n

abbrev pub token_bytes : List ℕ
token_bytes = bytes_up_to 32

abbrev pub zeros : ℕ → List ℕ
zeros zero = []
zeros (suc n) = 0 ∷ zeros n

zeros-IsByte : (n : ℕ) → All IsByte (zeros n)
zeros-IsByte zero = tt
zeros-IsByte (suc n) = (omega arith, zeros-IsByte n)

abbrev pub receipt_bytes : List ℕ
receipt_bytes = zeros 32

pub receipt_bytes-IsByte : All IsByte receipt_bytes
receipt_bytes-IsByte = zeros-IsByte 32

abbrev pub agent : Scope
agent = session token_bytes

abbrev pub terminal : Scope
terminal = tty (codes "/dev/pts/1") (codes "boot")

abbrev pub key_a : Text
key_a = codes "API_KEY"

-- Process 10 is the root, and 12 its grandchild; pidfd 1 is pinned to the root and 2 to the grandchild.
abbrev pub small_kernel : Kernel
small_kernel = record {
  fdinfo_pid = λ fd. if fd == 1 then some 10 else if fd == 2 then some 12 else none;
  parent_of = λ p. if p == 12 then some 11 else if p == 11 then some 10 else none;
  path_exists = λ path. true;
}

abbrev pub root_entry : Registration
root_entry = record { token = token_bytes; session_id = codes "s1"; root = 1 }

abbrev pub file_a : FileIdentity
file_a = record { device = 1; inode = 2; size = 3; modified = (4, 0); changed = (5, 0) }

abbrev pub origin_a : GrantOrigin
origin_a = record { source = codes "store"; identity = file_a }
