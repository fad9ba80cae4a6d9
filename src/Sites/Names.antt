-- ===== src/Sites/Names.antt =====
-- The name of a site's file (backend/nginx_manager.py).
use Prim.Native.Char.{Char, code}
use Prim.Native.String.{String, [], ◌∷◌, ◌++◌}
use cloudbase.Prelude.{◌==◌, ◌||◌, Bool, if◌then◌else◌, lower, between}

name_char : Char → Bool
name_char c =
    between 97 122 (code c)
    || between 65 90 (code c)
    || between 48 57 (code c)
    || code c == 95
    || code c == 45

underscored : String → String
unfolding name_char
underscored [] = []
underscored (c ∷ s) = let rest = underscored s in if name_char c then c ∷ rest else "_" ++ rest

-- `_safe_name`
unfoldable pub safe_name : String → String
unfolding underscored
safe_name app_name = lower (underscored app_name)
