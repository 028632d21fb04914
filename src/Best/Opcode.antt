-- ===== src/Best/Opcode.antt =====
-- crates/best/src/opcode.rs: the opcode table of BEST/2.
use Prim.Native.String.{String}
use klartext.Prelude.{ℕ, Bool, true, false, List, [], ◌∷◌, Option, get_elem?}

pub data OpClass : Type 0 where
  arithmetic control flag stack string_op comm result float table : OpClass
  param byte_conv misc unimplemented : OpClass

pub record OpInfo : Type 0 where
  pub mnemonic : String
  pub class : OpClass
  pub is_jump : Bool

abbrev op : String → OpClass → Bool → OpInfo
op mnemonic class is_jump = record { mnemonic = mnemonic; class = class; is_jump = is_jump }

-- The entries for the bytes from 0x00 to 0xb7, in order.
unfoldable pub opcodes : List OpInfo
opcodes =
    op "move" arithmetic false
    ∷ op "clear" arithmetic false
    ∷ op "comp" arithmetic false
    ∷ op "subb" arithmetic false
    ∷ op "adds" arithmetic false
    ∷ op "mult" arithmetic false
    ∷ op "divs" arithmetic false
    ∷ op "and" arithmetic false
    ∷ op "or" arithmetic false
    ∷ op "xor" arithmetic false
    ∷ op "not" arithmetic false
    ∷ op "jump" control true
    ∷ op "jtsr" control true
    ∷ op "ret" control false
    ∷ op "jc" control true
    ∷ op "jae" control true
    ∷ op "jz" control true
    ∷ op "jnz" control true
    ∷ op "jv" control true
    ∷ op "jnv" control true
    ∷ op "jmi" control true
    ∷ op "jpl" control true
    ∷ op "clrc" flag false
    ∷ op "setc" flag false
    ∷ op "asr" flag false
    ∷ op "lsl" flag false
    ∷ op "lsr" flag false
    ∷ op "asl" flag false
    ∷ op "nop" misc false
    ∷ op "eoj" misc false
    ∷ op "push" stack false
    ∷ op "pop" stack false
    ∷ op "scmp" string_op false
    ∷ op "scat" string_op false
    ∷ op "scut" string_op false
    ∷ op "slen" string_op false
    ∷ op "spaste" string_op false
    ∷ op "serase" string_op false
    ∷ op "xconnect" comm false
    ∷ op "xhangup" comm false
    ∷ op "xsetpar" comm false
    ∷ op "xawlen" comm false
    ∷ op "xsend" comm false
    ∷ op "xsendf" comm false
    ∷ op "xrequf" comm false
    ∷ op "xstopf" comm false
    ∷ op "xkeyb" comm false
    ∷ op "xstate" comm false
    ∷ op "xboot" comm false
    ∷ op "xreset" comm false
    ∷ op "xtype" comm false
    ∷ op "xvers" comm false
    ∷ op "ergb" result false
    ∷ op "ergw" result false
    ∷ op "ergd" result false
    ∷ op "ergi" result false
    ∷ op "ergr" result false
    ∷ op "ergs" result false
    ∷ op "a2flt" float false
    ∷ op "fadd" float false
    ∷ op "fsub" float false
    ∷ op "fmul" float false
    ∷ op "fdiv" float false
    ∷ op "ergy" result false
    ∷ op "enewset" result false
    ∷ op "etag" result true
    ∷ op "xreps" misc false
    ∷ op "gettmr" misc false
    ∷ op "settmr" misc false
    ∷ op "sett" misc false
    ∷ op "clrt" misc false
    ∷ op "jt" misc true
    ∷ op "jnt" misc true
    ∷ op "addc" misc false
    ∷ op "subc" misc false
    ∷ op "break" misc false
    ∷ op "clrv" misc false
    ∷ op "eerr" misc false
    ∷ op "popf" misc false
    ∷ op "pushf" misc false
    ∷ op "atsp" table false
    ∷ op "swap" misc false
    ∷ op "setspc" misc false
    ∷ op "srevrs" misc false
    ∷ op "stoken" misc false
    ∷ op "parb" param false
    ∷ op "parw" param false
    ∷ op "parl" param false
    ∷ op "pars" param false
    ∷ op "fclose" misc false
    ∷ op "jg" misc true
    ∷ op "jge" misc true
    ∷ op "jl" misc true
    ∷ op "jle" misc true
    ∷ op "ja" misc true
    ∷ op "jbe" misc true
    ∷ op "fopen" misc false
    ∷ op "fread" misc false
    ∷ op "freadln" misc false
    ∷ op "fseek" misc false
    ∷ op "fseekln" misc false
    ∷ op "ftell" misc false
    ∷ op "ftellln" misc false
    ∷ op "a2fix" misc false
    ∷ op "fix2flt" misc false
    ∷ op "parr" param false
    ∷ op "test" misc false
    ∷ op "wait" misc false
    ∷ op "date" misc false
    ∷ op "time" misc false
    ∷ op "xbatt" misc false
    ∷ op "tosp" stack false
    ∷ op "xdownl" unimplemented false
    ∷ op "xgetport" misc false
    ∷ op "xignit" misc false
    ∷ op "xloopt" misc false
    ∷ op "xprog" misc false
    ∷ op "xraw" misc false
    ∷ op "xsetport" misc false
    ∷ op "xsireset" misc false
    ∷ op "xstoptr" unimplemented false
    ∷ op "fix2hex" misc false
    ∷ op "fix2dez" misc false
    ∷ op "tabset" table false
    ∷ op "tabseek" table false
    ∷ op "tabget" table false
    ∷ op "strcat" misc false
    ∷ op "pary" param false
    ∷ op "parn" param false
    ∷ op "ergc" misc false
    ∷ op "ergl" misc false
    ∷ op "tabline" table false
    ∷ op "xsendr" unimplemented false
    ∷ op "xrecv" unimplemented false
    ∷ op "xinfo" unimplemented false
    ∷ op "flt2a" misc false
    ∷ op "setflt" misc false
    ∷ op "cfgig" misc false
    ∷ op "cfgsg" misc false
    ∷ op "cfgis" misc false
    ∷ op "a2y" byte_conv false
    ∷ op "xparraw" unimplemented false
    ∷ op "hex2y" byte_conv false
    ∷ op "strcmp" misc false
    ∷ op "strlen" misc false
    ∷ op "y2bcd" byte_conv false
    ∷ op "y2hex" byte_conv false
    ∷ op "shmset" misc false
    ∷ op "shmget" misc false
    ∷ op "ergsysi" misc false
    ∷ op "flt2fix" misc false
    ∷ op "iupdate" misc false
    ∷ op "irange" misc false
    ∷ op "iincpos" misc false
    ∷ op "tabseeku" table false
    ∷ op "flt2y4" misc false
    ∷ op "flt2y8" misc false
    ∷ op "y42flt" misc false
    ∷ op "y82flt" misc false
    ∷ op "plink" misc false
    ∷ op "pcall" unimplemented false
    ∷ op "fcomp" misc false
    ∷ op "plinkv" misc false
    ∷ op "ppush" misc false
    ∷ op "ppop" misc false
    ∷ op "ppushflt" misc false
    ∷ op "ppopflt" misc false
    ∷ op "ppushy" misc false
    ∷ op "ppopy" misc false
    ∷ op "pjtsr" misc false
    ∷ op "tabsetex" table false
    ∷ op "ufix2dez" misc false
    ∷ op "generr" misc false
    ∷ op "ticks" misc false
    ∷ op "waitex" misc false
    ∷ op "xopen" unimplemented false
    ∷ op "xclose" unimplemented false
    ∷ op "xcloseex" unimplemented false
    ∷ op "xswitch" unimplemented false
    ∷ op "xsendex" unimplemented false
    ∷ op "xrecvex" unimplemented false
    ∷ op "ssize" misc false
    ∷ op "tabcols" table false
    ∷ op "tabrows" table false
    ∷ []

unfoldable pub info : ℕ → Option OpInfo
unfolding opcodes
info byte = get_elem? opcodes byte
