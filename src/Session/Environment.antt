-- ===== src/Session/Environment.antt =====
-- The process environment, and `saveenv`, `clearenv` and `restoreenv`. Allocation does not fail.
use rootsh.Base.{
  ◌+◌, Bool, false, ◌&&◌, ◌||◌, Option, none, some, List, [], ◌∷◌, ◌++◌, ◌==◌, if◌then◌else◌,
  length, take, drop,
}
use rootsh.Text.{Bytes, codes, equal}

-- `entries` is `environ`, each entry NAME=value; `terminated` says that the null pointer ends it, and
-- that what stands before it can be read; `saved` is `senv`, `none` the null pointer. `has_clearenv` is
-- HAVE_CLEARENV: the C library has that function.
pub record Environ : Type 0 where
  pub entries : List Bytes
  pub terminated : Bool
  pub saved : Option (List Bytes)
  pub has_clearenv : Bool

-- The bytes before the first `=`.
unfoldable pub name_of : Bytes → Bytes
name_of [] = []
name_of (c ∷ entry) = let rest = name_of entry in if c == b'=' then [] else c ∷ rest

-- `getenv(name)`: the value in the first entry of the name.
unfoldable pub getenv : List Bytes → Bytes → Option Bytes
unfolding name_of equal
getenv [] name = none
getenv (entry ∷ entries) name =
    let rest = getenv entries name in
    if equal (take (length name) entry) name
      && equal (take 1 (drop (length name) entry)) (codes "=")
    then some (drop (length name + 1) entry)
    else rest

-- `putenv(entry)`: in the place of the entry of the same name, or behind the others.
unfoldable pub putenv : List Bytes → Bytes → List Bytes
unfolding name_of equal
putenv [] entry = entry ∷ []
putenv (old ∷ entries) entry =
    let rest = old ∷ putenv entries entry in
    if equal (name_of old) (name_of entry) then entry ∷ entries else rest

-- `strncmp(*senvp, name, strchr(*senvp, '=') - *senvp)` is 0: the name in the entry begins `name`.
unfoldable pub is_saved : List Bytes → Bytes → Bool
unfolding name_of equal
is_saved [] name = false
is_saved (entry ∷ entries) name =
    equal (name_of entry) (take (length (name_of entry)) name) || is_saved entries name

unfoldable pub add_saved : List Bytes → Bytes → Bytes → List Bytes
unfolding is_saved
add_saved senv name value = if is_saved senv name then senv else senv ++ (name ++ b'=' ∷ value) ∷ []

-- `saveenv(name)`, on what `getenv` gives. The first call allocates an empty `senv`.
unfoldable pub save_value : Option (List Bytes) → Bytes → Option Bytes → Option (List Bytes)
unfolding add_saved
save_value senv name none = senv
save_value none name (some value) = some (add_saved [] name value)
save_value (some senv) name (some value) = some (add_saved senv name value)

unfoldable pub saveenv : Bytes → Environ → Environ
unfolding save_value getenv
saveenv name env = record env { saved = save_value env.saved name (getenv env.entries name) }

-- The C library's function leaves an empty environment; the program's own, in its place, a block of one
-- pointer that nothing is written to, not even the null pointer that ends it.
unfoldable pub clearenv : Environ → Environ
clearenv env = record env { entries = []; terminated = env.has_clearenv }

unfoldable pub put_all : List Bytes → List Bytes → List Bytes
unfolding putenv
put_all entries [] = entries
put_all entries (entry ∷ senv) = put_all (putenv entries entry) senv

-- `restoreenv`, on `saveenv(NULL)`; `none` is a read through the null pointer, or `putenv` in an
-- environment that is not there to be read.
unfoldable pub restore_from : Environ → Option (List Bytes) → Option Environ
unfolding put_all
restore_from env none = none
restore_from env (some []) = some env
restore_from env (some (entry ∷ senv)) =
    if env.terminated
    then some (record env { entries = put_all env.entries (entry ∷ senv) })
    else none

unfoldable pub restoreenv : Environ → Option Environ
unfolding restore_from
restoreenv env = restore_from env env.saved
