-- ===== src/State/Journal.antt =====
-- Mitosis/state: the records of state_object.go, and the journal of journal.go with its entries. An
-- object stands under its address in the map of objects; where an entry holds a pointer to an object
-- that has been replaced, it holds the address and the object.
use mitosis.Prelude.{
  ℕ, ◌+◌, ◌-◌, ◌==◌, if◌then◌else◌, Bool, false, List, [], ◌∷◌, Option, none, some, length,
}
use mitosis.Prelude.Assoc.{lookup, insert, delete}

-- `data.Balance`, a uint64, and the two flags.
pub record StateObject : Type 0 where
  pub balance : ℕ
  pub suicided : Bool
  pub deleted : Bool

abbrev pub new_object : ℕ → StateObject
new_object balance = record { balance = balance; suicided = false; deleted = false }

unfoldable pub empty : StateObject → Bool
empty o = o.balance == 0

pub data Entry : Type 0 where
  create_object_change : ℕ → Entry
  reset_object_change : ℕ → StateObject → Entry
  suicide_change : ℕ → Bool → ℕ → Entry
  balance_change : ℕ → ℕ → Entry
  refund_change : ℕ → Entry
  add_log_change : ℕ → Entry
  touch_change : ℕ → Entry

abbrev pub dirtied : Entry → Option ℕ
dirtied (create_object_change a) = some a
dirtied (reset_object_change a prev) = none
dirtied (suicide_change a prev prevbalance) = some a
dirtied (balance_change a prev) = some a
dirtied (refund_change prev) = none
dirtied (add_log_change txhash) = none
dirtied (touch_change a) = some a

-- The entries, the latest first, and how many of them are about an address.
pub record Journal : Type 0 where
  pub entries : List Entry
  pub dirties : List (ℕ × ℕ)

abbrev pub new_journal : Journal
new_journal = record { entries = []; dirties = [] }

abbrev pub count_of : Option ℕ → ℕ
count_of none = 0
count_of (some n) = n

unfoldable pub dirty : ℕ → Journal → Journal
dirty a j = record j { dirties = insert a (count_of (lookup a j.dirties) + 1) j.dirties }

abbrev pub dirty_if : Option ℕ → Journal → Journal
dirty_if none j = j
dirty_if (some a) j = dirty a j

unfoldable pub append : Entry → Journal → Journal
unfolding dirty
append e j = dirty_if (dirtied e) (record j { entries = e ∷ j.entries })

-- `if j.dirties[*addr]--; j.dirties[*addr] == 0 { delete }`. An address that an entry of the journal dirties has
-- a count of 1 at least; on a missing key, where Go would store -1, nothing is stored here.
unfoldable pub clean : ℕ → Journal → Journal
clean a j =
    let left = count_of (lookup a j.dirties) - 1 in
    record j { dirties = if left == 0 then delete a j.dirties else insert a left j.dirties }

abbrev pub clean_if : Option ℕ → Journal → Journal
clean_if none j = j
clean_if (some a) j = clean a j

unfoldable pub journal_length : Journal → ℕ
journal_length j = length j.entries
