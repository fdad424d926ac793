-- ===== src/System.antt =====
-- What the code calls and this repository does not define: the Berkeley DB library, and the
-- allocator, the clock and the user of the process. They are parameters. Over them stand the
-- state that the functions share and the monad in which the functions are written.
pub mod Laws
pub mod Keeps
use mangoo.Base.{ℕ, ◌*◌, Bool, Option, List}
use mangoo.Types.{Text, Key, Value, Entry, Reply}

pub data PutFlag : Type 0 where
  overwrite no_overwrite : PutFlag

-- The calls of a DB handle and of its cursors. Those that fail may also change the state: what
-- they keep is said by the laws. The position of a cursor is the key it stands on, none at the
-- start.
pub record BerkeleyDb : Type 1 where
  pub State : Type 0
  -- db_create, set_bt_compare, open with the flags of dbfs_initstore, and DB->close
  pub db_create : Reply (Unit {0})
  pub set_bt_compare : State → Reply (Unit {0})
  pub open_db : Text → State → Reply (Unit {0})
  pub close_db : State → Reply (Unit {0})
  -- db_env_create, and DB_ENV->open in the directory of the code
  pub env_create : Reply (Unit {0})
  pub env_open_home : Reply (Unit {0})
  pub get : State → (k : Key) → Reply (Value k)
  pub put : State → (k : Key) → Value k → PutFlag → Reply (Unit {0}) × State
  pub del : State → Key → Reply (Unit {0}) × State
  pub cursor : State → Reply (Unit {0})
  -- DBC->get with DB_SET, and with DB_NEXT from a position
  pub cursor_set : State → (k : Key) → Reply (Value k)
  pub cursor_next : State → Option Key → Reply Entry

-- `realloc_moves old new` says whether realloc of `old` bytes to `new` returns another address;
-- `fresh_block` is what malloc leaves in the 4096 bytes that are asked for under this block key.
pub record Platform : Type 0 where
  pub malloc : ℕ → Bool
  pub realloc_moves : ℕ → ℕ → Bool
  pub fresh_block : ℕ → ℕ → List ℕ
  pub time : ℕ
  pub geteuid : ℕ
  pub getegid : ℕ

pub record System : Type 1 where
  pub berkeley : BerkeleyDb
  pub open berkeley use *
  pub platform : Platform
  pub open platform use *

-- How many structures of each kind are allocated and not yet freed, and cursors open.
pub record Memory : Type 0 where
  pub handles : ℕ
  pub keys : ℕ
  pub locators : ℕ
  pub cursors : ℕ

-- The state of a mounted store: the database, struct dbfs_store's last_inode, the heap's counts.
pub record World (S : Type 0) : Type 0 where
  pub base : S
  pub last_inode : ℕ
  pub mem : Memory

-- A run of C code: it returns, it meets undefined behaviour, it ends the process with a status, or
-- it is still running when the fuel of a loop is used up.
pub data Outcome (A : Type 0) : Type 0 where
  returns : A → Outcome A
  undefined : Outcome A
  exits : ℕ → Outcome A
  running : Outcome A

abbrev pub Run : Type 0 → Type 0 → Type 0
Run S A = World S → Outcome (A × World S)

abbrev pub M : System → Type 0 → Type 0
M os A = Run os.State A

module _ {S A : Type 0} where
  abbrev pub pure : A → Run S A
  pure a w = returns (a, w)

  abbrev pub undefined_behaviour : Run S A
  undefined_behaviour w = undefined

  abbrev pub still_running : Run S A
  still_running w = running

  abbrev pub exit : ℕ → Run S A
  exit status w = exits status

  abbrev pub gets : (World S → A) → Run S A
  gets f w = returns (f w, w)

  -- A call that may change the database.
  abbrev pub db_call : (S → A × S) → Run S A
  db_call f w = let (a, s) = f w.base in returns (a, record w { base = s })

module _ {S : Type 0} where
  abbrev pub modify_mem : (Memory → Memory) → Run S (Unit {0})
  modify_mem f w = returns (tt, record w { mem = f w.mem })

module _ {S A B : Type 0} where
  abbrev pub and_then : Outcome (A × World S) → (A → Run S B) → Outcome (B × World S)
  and_then (returns r) k = k r.0 r.1
  and_then undefined k = undefined
  and_then (exits status) k = exits status
  and_then running k = running

  infixl 5 ◌>>=◌ ◌>>◌
  abbrev pub ◌>>=◌ : Run S A → (A → Run S B) → Run S B
  ◌>>=◌ m k w = and_then (m w) k

  abbrev pub ◌>>◌ : Run S A → Run S B → Run S B
  ◌>>◌ m n w = and_then (m w) (λ _. n)
