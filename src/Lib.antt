-- ===== src/Lib.antt =====
-- Bitcoin Stack Tracker: the calculations of the Home Assistant integration
-- (custom_components/bitcoin_stack_tracker), function by function, with what makes them correct.
--
-- Ledger is the rows of the stored ledger, how their timestamps are read and how they are sorted
-- (models.py, and the readers and `_sorted_entries` of fifo.py). Fifo is `fifo_result` of fifo.py:
-- Fifo/Expand the disposals that BTC fees become, Fifo/Drain the loop that takes BTC from the lots,
-- Fifo/Sale and Fifo/Expense what a disposal writes, Fifo/Rows the loop over the rows, Fifo/Result
-- what is returned; Fifo/Average the average price before a disposal. RateLimit is rate_limit.py.
-- Security is the access policy and the unlock sessions of security.py: Security/State and
-- Security/Sessions who may open the vault and until when, Security/Policy the calls that save the
-- policy, Security/Calls the histories of calls, in which the test of
-- `async_set_sensitive_sensors` and its part under the lock are two calls, with any others between,
-- Security/Exposure what these do to the sensors. Store is the ledger store of storage.py: Store/Data
-- its state, Store/Rows timestamps and identities of rows, Store/Cache the FIFO summaries in memory
-- and the check of a change against them, Store/Save saving and locking, Store/Changes the calls that
-- change rows, Store/Import the import with the preview of its duplicates, Store/Depots depots, goals
-- and settings; Store/Guard and Store/Limits the histories of calls. The store calls `fifo_result`
-- of Fifo on every change, and `slugify` of Ledger/Slug. WalletWatch is wallet_watch.py:
-- WalletWatch/Base58 base 58 and its checksum, WalletWatch/Address bech32, addresses and their
-- scripts, WalletWatch/Transaction the parser of raw transactions,
-- WalletWatch/Transaction/Format the format that it reads. Common holds what these share.
--
-- BTC amounts are whole satoshis, as `btc_string` writes them; fiat values are an abstract type of
-- decimals, whose operations, with `datetime.fromisoformat` and `str.upper`, are the record
-- `Python`. Instants are microseconds. The loop over the lots runs on fuel, two rounds more than
-- there are lots, and is proved to end by its own test; the search for a free depot id on one try
-- more than there are depots. A call of the store is one step, since its lock lets no other in, and
-- what it raises is a value; the text functions of Python are the record `Texts`. Where the source
-- keeps a text in the ledger, the model keeps the rounded amount. Texts of addresses are lists of
-- codes and bytes lists of numbers; where the parser has an offset, the model has the bytes left;
-- its loops are as long as the counts that they read. `hashlib` is a parameter.
--
-- Not modelled: NaN and infinite decimals, datetimes that leave the years 1 to 9999, loading the
-- policy in security.py and its legacy ciphers, `currency_summary_from_result` of fifo.py; of storage.py
-- loading and passwords, whose ciphers are a library, the contents of the chart cache, the
-- configuration of the wallet watch, backups and the history store; the rest of the integration
-- (encryption, network, the clients and keys of the wallet watch, CSV import, market assessment, history, user interface).
pub mod Common
pub mod Fifo
pub mod Ledger
pub mod RateLimit
pub mod Security
pub mod Store
pub mod WalletWatch
