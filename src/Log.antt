-- ===== src/Log.antt =====
-- The log of src/errlog.c: `SetMsgLevel`, `RegisterLogMsg` and `LogMsg`. The text that `vsprintf`
-- makes and the time that `ReturnCurTimeStr` gives are arguments. A level is an `enum` without
-- negative values, so it is unsigned, and so is its comparison with the level that is set.
pub mod Filter
use tdm.Base.{
  ℕ, suc, ◌+◌, ◌-◌, ◌^◌, Bool, true, false, not, ◌&&◌, ◌||◌, List, [], ◌∷◌, ◌++◌, ◌==◌, ltb, leb,
  if◌then◌else◌,
}
use tdm.Base.Int.{ℤ, pos, negsuc, ltb_ℤ}

-- `MSG_DEBUG`, `MSG_MONITOR`, `MSG_ALARM`, `MSG_ERROR`, `MSG_SMS`.
abbrev pub msg_debug : ℕ
msg_debug = 1

abbrev pub msg_monitor : ℕ
msg_monitor = 3

abbrev pub msg_alarm : ℕ
msg_alarm = 4

abbrev pub msg_error : ℕ
msg_error = 5

abbrev pub msg_sms : ℕ
msg_sms = 6

-- `__gsiLogMsgLevel__`, and whether the two files are open.
pub record Logger : Type 0 where
  pub level : ℤ
  pub normal : Bool
  pub error : Bool

-- A call of `LogMsg`: its level, whether the format begins with a backspace, the text and the time.
pub record Message : Type 0 where
  pub msg_level : ℕ
  pub backspace : Bool
  pub text : List ℕ
  pub time : List ℕ

-- What is written to the standard output and to the two files, each text with those before it.
pub record Written : Type 0 where
  pub console : List (List ℕ)
  pub to_normal : List (List ℕ)
  pub to_error : List (List ℕ)

abbrev pub nothing : Written
nothing = record { console = []; to_normal = []; to_error = [] }

-- The level that is set, as an unsigned number of 32 bits.
abbrev pub as_unsigned : ℤ → ℕ
as_unsigned (pos n) = n
as_unsigned (negsuc n) = 2 ^ 32 - suc n

abbrev pub is_unset : ℤ → Bool
is_unset (pos n) = false
is_unset (negsuc n) = n == 0

abbrev pub is_level : ℕ → Bool
is_level l = leb msg_debug l && leb l msg_sms

-- The condition under which `LogMsg` returns at once.
unfoldable pub is_dropped : ℤ → ℕ → Bool
is_dropped set l =
    (not (is_unset set) && ltb l (as_unsigned set))
    || ((not (is_unset set) && (not (is_level l) && not (l == 0)))
        || (is_unset set && not (l == 0)))

abbrev pub when : Bool → List ℕ → List (List ℕ)
when b t = if b then t ∷ [] else []

-- `N:0:` and `E:0:`.
abbrev pub normal_text : Message → List ℕ
normal_text m = if m.backspace then m.text else m.time ++ b'N' ∷ b':' ∷ b'0' ∷ b':' ∷ m.text

abbrev pub error_text : Message → List ℕ
error_text m = m.time ++ b'E' ∷ b':' ∷ b'0' ∷ b':' ∷ m.text

abbrev pub is_alarm : ℕ → Bool
is_alarm l = (l == msg_alarm) || ((l == msg_error) || (l == msg_sms))

abbrev pub is_filed : ℕ → Bool
is_filed l = leb msg_monitor l && leb l msg_sms

-- `LogMsg`.
unfoldable pub log_msg : Logger → Message → Written
log_msg s m =
    if is_dropped s.level m.msg_level
    then nothing
    else if is_unset s.level
    then record {
      console = when (is_level m.msg_level || (m.msg_level == 0)) (b'>' ∷ m.text);
      to_normal = [];
      to_error = [];
    }
    else record {
      console = when (leb (as_unsigned s.level) m.msg_level) (b'>' ∷ m.text);
      to_normal =
          when (is_filed m.msg_level && ((m.msg_level == msg_monitor) && s.normal)) (normal_text m);
      to_error = when (is_filed m.msg_level && (is_alarm m.msg_level && s.error)) (error_text m);
    }

-- `SetMsgLevel`: the level set before, and the log afterwards.
abbrev pub set_msg_level : ℤ → Logger → ℤ × Logger
set_msg_level new s = (s.level, record s { level = new })

-- The calls of the module; `registers` with whether `fopen` succeeds on each of the files.
pub data Call : Type 0 where
  sets : ℤ → Call
  registers : ℤ → Bool → Bool → Message → Call
  logs : Message → Call

abbrev pub is_in_range : ℤ → Bool
is_in_range (pos n) = is_level n
is_in_range (negsuc n) = false

-- `RegisterLogMsg` with a level in range; with another one the program ends.
abbrev pub register_log_msg : ℤ → Bool → Bool → Logger → Logger
register_log_msg level normal error s = record { level = level; normal = normal; error = error }

abbrev pub with_written : Written → Written → Written
with_written a b = record {
  console = a.console ++ b.console;
  to_normal = a.to_normal ++ b.to_normal;
  to_error = a.to_error ++ b.to_error;
}

-- What a program writes with these calls, until it ends. `LogMsg(0, "MsgLevel is out of range!")` is
-- what it writes when `RegisterLogMsg` ends it.
unfoldable pub log_calls : List Call → Logger → Written
log_calls [] s = nothing
log_calls (sets new ∷ calls) s = log_calls calls (set_msg_level new s).1
log_calls (registers level normal error m ∷ calls) s =
    let rest = log_calls calls (register_log_msg level normal error s) in
    if is_in_range level then rest else log_msg s (record m { msg_level = 0 })
log_calls (logs m ∷ calls) s = let rest = log_calls calls s in with_written (log_msg s m) rest
