-- ===== src/Host.antt =====
-- The operating system as the program meets it: os, os/exec, syscall and the C library libvmmapi,
-- none of which is code of this repository. A call is added to the history, newest first, and its
-- reply is any function of the calls before it. The program's own wrappers stand in the modules
-- that use this one.
use bhyve_mcp.Common.{
  true, false, some, none, deadlock, Outcome, ◌≡◌, ◌⊎◌, inl, inr, refl, ℕ, ℤ, String, Bool, Option,
  List, ◌∷◌, Exec, done, fail,
}

pub data Call : Type 0 where
  read_file mkdir_all remove read_dir stat : String → Call
  write_file rename : String → String → Call
  -- `exec.Command(name, args...)`, run to its end or only started
  run spawn : List String → Call
  signal : ℕ → ℕ → Call
  kill wait : ℕ → Call
  vm_create vm_open : String → Call
  vm_close vm_destroy : ℕ → Call
  vm_setup_memory : Option ℕ → ℕ → Call
  -- a GET request, a file that is created, the copy of the answer's body to it, and a file that is
  -- opened and read to its end
  fetch create_file copy_body open_file read_all : String → Call
  -- an open file that is closed, read with a time limit, or written, and one that is opened to append
  close_file : ℕ → Call
  read_some : ℕ → ℕ → Call
  write_some : ℕ → String → Call
  open_append : String → Call
  append_text : String → String → Call

abbrev pub History : Type 0
History = List Call

-- A Go error of the standard library: its text, and the answer of `os.IsNotExist`.
pub record Fault : Type 0 where
  pub message : String
  pub not_exist : Bool

pub data Reply (A : Type 0) : Type 0 where
  good : A → Reply A
  bad : Fault → Reply A

-- An entry of a directory: its name, and `IsDir`.
pub record Entry : Type 0 where
  pub name : String
  pub is_dir : Bool

pub record Host : Type 0 where
  pub read_file : History → String → Reply String
  pub mkdir_all : History → String → Reply (Unit {0})
  pub write_file : History → String → String → Reply (Unit {0})
  pub remove : History → String → Reply (Unit {0})
  pub rename : History → String → String → Reply (Unit {0})
  pub read_dir : History → String → Reply (List Entry)
  -- the size of a file, as `os.Stat` tells it
  pub stat : History → String → Reply ℕ
  -- the standard output of a command
  pub run : History → List String → Reply String
  -- the process started
  pub spawn : History → List String → Reply ℕ
  pub signal : History → ℕ → ℕ → Reply (Unit {0})
  pub kill : History → ℕ → Reply (Unit {0})
  pub wait : History → ℕ → Reply (Unit {0})
  -- what the C functions return; `vm_open` may return NULL
  pub vm_create : History → String → ℤ
  pub vm_open : History → String → Option ℕ
  pub vm_setup_memory : History → Option ℕ → ℕ → ℤ

-- A call and what it returns.
abbrev pub ask : {A : Type 0} → (History → A) → Call → Exec History A
ask reply c past = done (reply past) (c ∷ past)

-- `x, err := call; if err != nil { return err }`
abbrev pub need : {A : Type 0} → (History → Reply A) → Call → Exec History A
need reply c past = elim (reply past) [
  | good a ↦ done a (c ∷ past)
  | bad f ↦ fail f.message (c ∷ past)
]

-- To split on a reply and keep the equation.
pub Reply-cases :
    {A : Type 0} (r : Reply A) → ((a : A) × (r ≡ good a)) ⊎ ((f : Fault) × (r ≡ bad f))
Reply-cases (good a) = inl (a, refl)
Reply-cases (bad f) = inr (f, refl)

-- The calls made when a method has come back.
abbrev pub calls_after : {A : Type 0} → Outcome History A → Option History
calls_after (done _ past) = some past
calls_after (fail _ past) = some past
calls_after deadlock = none

abbrev pub replied : Reply String → Bool
replied (good _) = true
replied (bad _) = false

abbrev pub succeeds : {A : Type 0} → Outcome History A → Bool
succeeds (done _ _) = true
succeeds _ = false
