-- ===== src/Store/Data.antt =====
-- What the ledger store holds, and what it takes from Python's library to write it.
use bitcoin_stack_tracker.Common.{ℕ, Bool, Option, String, List}
use bitcoin_stack_tracker.Common.Int.{ℤ}
use bitcoin_stack_tracker.Common.Dict.{Dict}
use bitcoin_stack_tracker.Ledger.{Entry, Instant}
use bitcoin_stack_tracker.Fifo.Result.{FifoResult}
use bitcoin_stack_tracker.Security.State.{EncryptionMode}

abbrev pub max_depots : ℕ
max_depots = 10

abbrev pub max_goals : ℕ
max_goals = 20

abbrev pub max_ledger_entries : ℕ
max_ledger_entries = 25_000

abbrev pub default_depot_id : String
default_depot_id = "main"

abbrev pub all_depots : String
all_depots = "all"

-- `str.strip` and `str.lower`; `clip n` is `[:n]`; `isoformat` writes an instant at UTC;
-- `btc_string` and `money_string` round a decimal and write it: `to_sats` and `to_money` are the
-- rounded values, `money_text` the text, `btc_label` is `f"{btc_string(amount)} BTC"`. `ascii` is the
-- NFKD form without the characters outside ASCII; `numbered` is `f"{base}_{counter}"`.
pub record Texts (D : Type 0) : Type 0 where
  pub strip : String → String
  pub lower : String → String
  pub clip : ℕ → String → String
  pub isoformat : Instant → String
  pub to_sats : D → ℤ
  pub to_money : D → D
  pub money_text : D → String
  pub is_negative : D → Bool
  pub btc_label : D → String
  pub ascii : String → String
  pub numbered : String → ℕ → String

-- A row as it is stored: what the calculations read, and the other keys. A key that the row does
-- not have is none, false or the empty text.
pub record Row (D : Type 0) : Type 0 where
  pub entry : Entry D
  pub note : String
  pub network : String
  pub included_fee : Option D
  pub included_fee_estimated : Bool
  pub import_ref_hash : String

pub record Depot : Type 0 where
  pub id : String
  pub name : String

pub record Goal : Type 0 where
  pub id : String
  pub name : String
  pub amount_btc : ℤ
  pub depot_id : String
  pub currency : String

pub record TaxSettings : Type 0 where
  pub long_term_days : ℤ
  pub note : String

-- `self._data`, but for the schema version and the configuration of the wallet watch. Of the chart
-- cache it has the revision.
pub record LedgerData (D : Type 0) : Type 0 where
  pub entries : List (Row D)
  pub depots : List Depot
  pub goals : List Goal
  pub tax_settings : TaxSettings
  pub chart_revision : Option String

abbrev pub FifoCache : Type 0 → Type 0
FifoCache D = Dict String (FifoResult D)

-- The store. `stored` is the data that the last `async_save` wrote, as it is or sealed.
-- `has_session_key`: the data key of the password vault is in memory, and its envelope is of the
-- present format. `has_legacy_key`: the installation key is.
pub record Store (D : Type 0) : Type 0 where
  pub ledger : LedgerData D
  pub stored : Option (LedgerData D)
  pub locked : Bool
  pub encryption_mode : EncryptionMode
  pub has_session_key : Bool
  pub has_legacy_key : Bool
  pub fifo_cache : FifoCache D
