-- ===== src/Empty.antt =====
-- DC_PAL_Empty: the parts of a platform that has none. A file is read and written without effect;
-- the state of the environment is the file's.
pub mod LogFile
use libdronecan.Prelude.{ℕ, Bool, false, Option, none, some, List, []}

module _ {E : Type 0} where
  -- `File::read` and `File::write` of DC_PAL_Empty/FileSystem.h, which return 0; `seek` and `flush`.
  pub read : (size : ℕ) → E → Option (List ℕ) × E
  read size env = (some [], env)

  pub write : List ℕ → E → Option ℕ × E
  write bytes env = (some 0, env)

  pub seek : (offset whence : ℕ) → E → ℕ × E
  seek offset whence env = (0, env)

  pub flush : E → ℕ × E
  flush env = (0, env)

-- `FileSystem::open` gives no file.
pub open_file : {F : Type 0} → (path mode : List ℕ) → Option F
open_file path mode = none

-- `CAN::init`, `CAN::send`, `Serial::init` and `Serial::send` fail.
pub can_init : Bool
can_init = false

pub can_send : {A : Type 0} → A → Bool
can_send frame = false

pub serial_init : Bool
serial_init = false

pub serial_send : List ℕ → Bool
serial_send payload = false
