-- ===== src/TelnetServer.antt =====
-- mid-homework/telnet-server.c: a server that lists a directory, tells which one it is in, and changes
-- it. The system and the shell are an interface.
pub mod Listing
mod Tests
use yolanda.Memory.{Bytes, memcpy, store}
use yolanda.Fgets.{fgets}
use yolanda.Yolandapp.Http.{c_str}
use yolanda.Http.Text.{codes}
use yolanda.Prelude.Int.{ℤ, is_neg}
use yolanda.Outcome.{Outcome, ok, fault, exited, out_of_bounds, null_pointer, deref, ◌>>=◌}
use yolanda.Prelude.{
  ◌+◌, ◌-◌, ◌∷◌, ◌++◌, ◌==◌, ◌&&◌, ◌||◌, if◌then◌else◌, none, some, true, false, ℕ, List, Option,
  Bool, zero, suc, length, [], take, drop, replicate,
}

-- What the functions here ask of the system.
pub record Shell (S : Type 0) : Type 0 where
  -- what `ls` prints, `none` if `popen` fails
  pub popen_ls : S → Option Bytes
  -- the bytes of a new block of that size
  pub malloc : ℕ → S → Bytes
  -- the path of the directory, without its zero; `none` is NULL
  pub getcwd : ℕ → S → Option Bytes
  pub chdir : Bytes → S → S
  -- a negative result is a failure
  pub send : Bytes → S → ℤ × S

-- `strlen` and what it passes over: a block without a zero is read past its end.
unfoldable pub until_zero : Bytes → Outcome Bytes
until_zero [] = fault out_of_bounds
until_zero (zero ∷ cs) = ok []
until_zero (suc c ∷ cs) = do more ← until_zero cs; ok (suc c ∷ more)

-- `strncmp(p, q, n) == 0`. Both end with a zero, so neither is read past its end.
unfoldable pub same_start : ℕ → Bytes → Bytes → Bool
same_start zero p q = true
same_start (suc n) [] q = false
same_start (suc n) (c ∷ cs) [] = false
same_start (suc n) (c ∷ cs) (d ∷ ds) = c == d && (c == 0 || same_start n cs ds)

-- The loop of `run_cmd` from `data_index`, on the output that is left. Each call of `fgets` takes at
-- least one byte of it, and the fuel is their number.
unfoldable pub copy_output : ℕ → ℕ → Bytes → Bytes → Outcome Bytes
copy_output fuel data_index block [] = ok block
copy_output zero data_index block (c ∷ cs) = ok block
copy_output (suc fuel) data_index block (c ∷ cs) = do
  let read = fgets 255 (c ∷ cs)
  block' ← memcpy block data_index (c_str (read.0))
  copy_output fuel (data_index + length (c_str (read.0))) block' (read.1)

-- `bzero(data, sizeof(data))` clears as many bytes as a pointer has.
unfoldable pub run_cmd : Option Bytes → Bytes → Outcome Bytes
run_cmd output fresh = do
  block ← memcpy fresh 0 (replicate 8 0)
  elim output [ none ↦ ok block | some text ↦ copy_output (length text) 0 block text ]

-- A negative result of `send` ends the program with the status 1.
unfoldable pub sent : {S : Type 0} → Shell S → Bytes → S → Outcome S
sent sys text s = let (n, s') = sys.send text s in if is_neg n then fault (exited 1) else ok s'

module _ {S : Type 0} (sys : Shell S) where
  unfoldable pub list_directory : S → Outcome S
  list_directory s = do
    result ← run_cmd (sys.popen_ls s) (sys.malloc 16384 s)
    text ← until_zero result
    sent sys text s

  unfoldable pub print_directory : S → Outcome S
  print_directory s = do result ← deref (sys.getcwd 256 s); sent sys (c_str result) s

  -- What follows "cd " up to the zero.
  unfoldable pub change_directory : Bytes → S → Outcome S
  change_directory buf s = do text ← until_zero buf; ok (sys.chdir (drop 3 text) s)

  unfoldable pub run_command : ℕ → Bytes → S → Outcome S
  run_command n buf s =
      if same_start n buf (codes "ls" ++ 0 ∷ [])
      then list_directory s
      else if same_start n buf (codes "pwd" ++ 0 ∷ [])
      then print_directory s
      else if same_start 3 buf (codes "cd " ++ 0 ∷ [])
      then change_directory buf s
      else sent sys (codes "error: unknown input type") s

  -- What `read` delivers: at most 256 bytes, and at least one.
  unfoldable pub on_input : Bytes → S → Outcome S
  on_input input s = do
    buf ← memcpy (replicate 256 0) 0 input
    buf' ← store buf (length input) 0
    run_command (length input) buf' s

  -- The loop over a connection, for what its reads deliver; `none` is a failure. The end of the list is
  -- the end of the stream.
  unfoldable pub serve : List (Option Bytes) → S → Outcome S
  serve [] s = ok s
  serve (none ∷ inputs) s = fault (exited 1)
  serve (some input ∷ inputs) s = do s' ← on_input input s; serve inputs s'
