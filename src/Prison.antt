-- ===== src/Prison.antt =====
-- bfe_modules/mod_prison: the counters of access.go and the prison of rule.go. Times are in
-- nanoseconds since 1970, one argument for each reading of the clock. The two dictionaries are LRU
-- caches of github.com/bfenetworks/go-lib/lru_cache, which are an interface: what it says of a cache
-- holds when entries fall out for want of room, too. The calls of a
-- rule follow one another.
pub mod Sign
pub mod Missing
pub mod Views
pub mod Counts
pub mod Runs
pub mod Fair
pub mod Release
pub mod Examples
pub mod SignExamples
use bfe.Common.{
  ℕ, ◌+◌, ◌-◌, ◌%◌, ◌≡◌, ◌⊎◌, Bool, true, false, ◌&&◌, Option, none, some, List, [], ◌∷◌,
  if◌then◌else◌, ltb, ◌==◌, Bytes, codes,
}

-- An AccessSign, by the number that its 16 bytes spell.
abbrev pub AccessSign : Type 0
AccessSign = ℕ

-- A cache with values in V. `get` may change the order of the entries; `store` changes what the
-- pointer under a key points to.
pub record LruCache (V : Type 0) : Type 1 where
  pub Cache : Type 0
  pub new : ℕ → Cache
  pub enlarge_capacity : Cache → ℕ → Cache
  pub get : Cache → AccessSign → Option V × Cache
  pub add : Cache → AccessSign → V → Cache
  pub del : Cache → AccessSign → Cache
  pub store : Cache → AccessSign → V → Cache
  pub get-new : (n : ℕ) (k : AccessSign) → (get (new n) k).0 ≡ none
  pub get-enlarge :
      (c : Cache) (n : ℕ) (k : AccessSign) → (get (enlarge_capacity c n) k).0 ≡ (get c k).0
  pub get-get : (c : Cache) (j k : AccessSign) → (get (get c j).1 k).0 ≡ (get c k).0
  pub get-add : (c : Cache) (k : AccessSign) (v : V) → (get (add c k v) k).0 ≡ some v
  -- Another entry stays or falls out.
  pub get-add_other :
      (c : Cache) (j k : AccessSign) (v : V)
      → (j == k) ≡ false
      → ((get (add c j v) k).0 ≡ (get c k).0) ⊎ ((get (add c j v) k).0 ≡ none)
  pub get-store :
      (c : Cache) (k : AccessSign) (u v : V)
      → (get c k).0 ≡ some u
      → (get (store c k v) k).0 ≡ some v
  pub get-store_other :
      (c : Cache) (j k : AccessSign) (v : V)
      → (j == k) ≡ false
      → (get (store c j v) k).0 ≡ (get c k).0
  pub get-del : (c : Cache) (k : AccessSign) → (get (del c k) k).0 ≡ none
  pub get-del_other :
      (c : Cache) (j k : AccessSign) → (j == k) ≡ false → (get (del c j) k).0 ≡ (get c k).0

-- The count is an int32, by its 32 bits.
pub record AccessCounter : Type 0 where
  pub count : ℕ
  pub start_time : ℕ

unfoldable pub new_access_counter : ℕ → AccessCounter
new_access_counter now = record { count = 0; start_time = now }

unfoldable pub reset : AccessCounter → ℕ → AccessCounter
reset c now = record c { count = 0; start_time = now }

-- a > b for an int32 and a threshold, which is not negative.
abbrev pub above : ℕ → ℕ → Bool
above a b = ltb a 0x80000000 && ltb b a

-- The new counter, whether the threshold is passed, and the rest of the period. `now` is the first
-- reading, `now'` that of reset. A negative rest is 0.
unfoldable pub inc_and_check : AccessCounter → ℕ → ℕ → ℕ → ℕ → AccessCounter × Bool × ℕ
unfolding reset
inc_and_check c check_period_ns threshold now now' =
    let c' = if ltb (c.start_time + check_period_ns) now then reset c now' else c in
    let count = (c'.count + 1) % 0x100000000 in
    (record c' { count = count }, above count threshold, c'.start_time + check_period_ns - now)

pub record PrisonInfo : Type 0 where
  pub prison_type : Bytes
  pub prison_name : Bytes
  pub free_time : ℕ
  pub is_expired : Bool
  pub action : Bytes

abbrev pub mod_prison : Bytes
mod_prison = codes "mod_prison"

-- The readings of the clock in one recordAndCheck: in the first shouldDeny, in NewAccessCounter, in
-- IncAndCheck, in reset, in recordAccess, and in the second shouldDeny.
pub record Clock : Type 0 where
  pub first_check : ℕ
  pub created : ℕ
  pub counted : ℕ
  pub restarted : ℕ
  pub imprisoned : ℕ
  pub last_check : ℕ

module _ (access : LruCache AccessCounter) (prison : LruCache ℕ) where
  pub record PrisonRule : Type 0 where
    pub name : Bytes
    -- the command of its action
    pub action : Bytes
    pub check_period_ns : ℕ
    pub stay_period_ns : ℕ
    pub threshold : ℕ
    pub access_dict_size : ℕ
    pub prison_dict_size : ℕ
    pub access_dict : access.Cache
    pub prison_dict : prison.Cache

  -- New dictionaries, or those of an old rule.
  unfoldable pub init_dict : PrisonRule → Option PrisonRule → PrisonRule
  init_dict r none = record r {
    access_dict = access.new r.access_dict_size;
    prison_dict = prison.new r.prison_dict_size;
  }
  init_dict r (some old_rule) = record r {
    access_dict = access.enlarge_capacity old_rule.access_dict r.access_dict_size;
    prison_dict = prison.enlarge_capacity old_rule.prison_dict r.prison_dict_size;
  }

  -- The counter of a sign, and the dictionary in which a new one has been put.
  abbrev pub counter_of :
      Option AccessCounter × access.Cache → AccessSign → ℕ → AccessCounter × access.Cache
  counter_of (some f, dict) sign now = (f, dict)
  counter_of (none, dict) sign now =
      (new_access_counter now, access.add dict sign (new_access_counter now))

  -- What follows IncAndCheck: the counter is kept, or the sign is put into prison.
  abbrev pub settle :
      PrisonRule → access.Cache → AccessSign → ℕ → AccessCounter × Bool × ℕ → PrisonRule
  settle r dict sign now (f, true, rest_time_ns) = record r {
    access_dict = access.del dict sign;
    prison_dict = prison.add r.prison_dict sign (r.stay_period_ns + rest_time_ns + now);
  }
  settle r dict sign now (f, false, rest_time_ns) = record r {
    access_dict = access.store dict sign f;
  }

  unfoldable pub record_access : PrisonRule → AccessSign → Clock → PrisonRule
  unfolding inc_and_check new_access_counter
  record_access r sign clock =
      let (f, dict) = counter_of (access.get r.access_dict sign) sign clock.created in
      settle r dict sign clock.imprisoned
        (inc_and_check f r.check_period_ns r.threshold clock.counted clock.restarted)

  abbrev pub prison_info : PrisonRule → ℕ → Bool → PrisonInfo
  prison_info r free_time_ns is_expired = record {
    prison_type = mod_prison;
    prison_name = r.name;
    free_time = free_time_ns;
    is_expired = is_expired;
    action = r.action;
  }

  -- The new rule, the information that is set in the request, and the answer.
  abbrev pub deny_by :
      PrisonRule → AccessSign → ℕ → Option ℕ × prison.Cache → PrisonRule × Option PrisonInfo × Bool
  deny_by r sign now (none, dict) = (record r { prison_dict = dict }, none, false)
  deny_by r sign now (some free_time_ns, dict) =
      if ltb now free_time_ns
      then (record r { prison_dict = dict }, some (prison_info r free_time_ns false), true)
      else (
        record r { prison_dict = prison.del dict sign },
        some (prison_info r free_time_ns true),
        false,
      )

  unfoldable pub should_deny : PrisonRule → AccessSign → ℕ → PrisonRule × Option PrisonInfo × Bool
  should_deny r sign now = deny_by r sign now (prison.get r.prison_dict sign)

  -- The information that is set last.
  abbrev pub last_info : Option PrisonInfo → Option PrisonInfo → Option PrisonInfo
  last_info info none = info
  last_info info (some i) = some i

  abbrev pub record_and_deny :
      AccessSign
      → Clock
      → PrisonRule × Option PrisonInfo × Bool
      → PrisonRule × Option PrisonInfo × Bool
  record_and_deny sign clock (r, info, true) = (r, info, true)
  record_and_deny sign clock (r, info, false) =
      let (r', info', deny) = should_deny (record_access r sign clock) sign clock.last_check in
      (r', last_info info info', deny)

  -- What follows once the request has a sign.
  unfoldable pub record_and_check :
      PrisonRule → AccessSign → Clock → PrisonRule × Option PrisonInfo × Bool
  unfolding should_deny record_access
  record_and_check r sign clock = record_and_deny sign clock (should_deny r sign clock.first_check)
