-- ===== src/Basename/Tests.antt =====
-- `basename` on paths that can be followed by hand, and its theorems there.
use rootsh.Base.{◌≡◌, refl, some, arith}
use rootsh.Text.{codes}
use rootsh.Basename.{
  basename, basename_of_copy, slash_found, walk, cut_slashes, last_element, without_slashes,
}
use rootsh.Basename.Laws.{basename-element, basename-under_root, basename-trailing_slash}

slashes_only : basename (some (codes "///")) ≡ codes "/"
unfolding basename basename_of_copy slash_found walk cut_slashes last_element without_slashes
slashes_only = refl

relative_path : basename (some (codes "a/b")) ≡ codes "b"
unfolding basename basename_of_copy slash_found walk cut_slashes last_element without_slashes
relative_path = refl

basename-element_example : basename (some (codes "/bin/bash//")) ≡ codes "bash"
basename-element_example =
    basename-element b'/' b'b' (codes "bin") (codes "ash") (codes "//") refl (ground arith)
      (ground arith)

basename-under_root_example : basename (some (codes "/sh")) ≡ codes "/sh"
basename-under_root_example = basename-under_root b's' (codes "h") refl (ground arith)

basename-trailing_slash_example : basename (some (codes "sh/")) ≡ codes "sh/"
basename-trailing_slash_example = basename-trailing_slash b's' (codes "h") refl (ground arith)
