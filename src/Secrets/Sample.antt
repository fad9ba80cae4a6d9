-- ===== src/Secrets/Sample.antt =====
-- A cipher that marks what it encrypts, for the tests.
use Prim.Native.Char.{code}
use Prim.Native.String.{[], ◌∷◌}
use cloudbase.Prelude.{String, Option, none, some, refl, arith, ◌==◌, if◌then◌else◌}
use cloudbase.Secrets.{Cipher}

abbrev mark : String → String
mark s = "!" ∷ s

abbrev unmark : String → Option String
unmark [] = none
unmark (c ∷ s) = if code c == 33 then some s else none

-- The variables are one text here.
abbrev pub marking : Cipher String
marking = record {
  encrypt = mark;
  decrypt = unmark;
  no_env = "";
  dumps = λ env. env;
  loads = λ s. some s;
  decrypt-encrypt = λ s. refl;
  loads-dumps = λ env. refl;
  encrypt_longer = λ s. omega arith;
}
