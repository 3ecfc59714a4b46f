-- ===== src/Route/Host.antt =====
-- Host names: bfe_util/string_reverse, and what host_table.go does to a name before it looks it up.
-- Names are ASCII, so that a rune is a byte.
use bfe.Common.{ℕ, ◌+◌, ◌==◌, leb, ◌&&◌, List, [], ◌∷◌, ◌++◌, Bytes, map, if◌then◌else◌}

abbrev pub dot : ℕ
dot = b'.'

-- The loop that swaps from both ends.
unfoldable pub reverse : Bytes → Bytes
reverse [] = []
reverse (c ∷ cs) = reverse cs ++ c ∷ []

unfoldable pub drop_dot : Bytes → Bytes
drop_dot [] = []
drop_dot (c ∷ cs) = if c == dot then cs else c ∷ cs

unfoldable pub reverse_fqdn_host : Bytes → Bytes
unfolding reverse drop_dot
reverse_fqdn_host host = drop_dot (reverse host)

abbrev lower : ℕ → ℕ
lower c = if leb b'A' c && leb c b'Z' then c + 32 else c

-- strings.ToLower
unfoldable pub to_lower : Bytes → Bytes
to_lower = map lower

-- A byte before the parts of the rest.
abbrev join_first : ℕ → List Bytes → List Bytes
join_first c [] = (c ∷ []) ∷ []
join_first c (part ∷ parts) = (c ∷ part) ∷ parts

-- strings.Split by one byte.
unfoldable pub split : ℕ → Bytes → List Bytes
split sep [] = [] ∷ []
split sep (c ∷ cs) = let rest = split sep cs in if c == sep then [] ∷ rest else join_first c rest

-- strings.Split(hostname, ":")[0]
unfoldable pub hostname_strip : Bytes → Bytes
hostname_strip [] = []
hostname_strip (c ∷ cs) = if c == b':' then [] else c ∷ hostname_strip cs

-- The path of a host name in the trie: its labels, the last one first.
unfoldable pub host_path : Bytes → List Bytes
unfolding split reverse_fqdn_host
host_path host = split dot (reverse_fqdn_host host)
