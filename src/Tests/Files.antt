-- ===== src/Tests/Files.antt =====
-- Runs of the serving of files.
use deltafeedback.Prelude.{
  ℕ, ◌≡◌, ◌↔◌, refl, false, [], none, some, Bytes, codes, bytes_eq, if◌then◌else◌, negsuc,
}
use deltafeedback.Pow.Decimal.{i64_to_str, to_string, digits}
use deltafeedback.Server.Files.{
  Files, file_response, mime_for, extension, path_join, has_filename, outside, answer_file, etag_of,
  size_or_max,
}
use deltafeedback.Server.Files.Revalidate.{tag_in, status_of, file_response-revalidates}

abbrev web : Bytes
web = codes "/web"

abbrev style : Bytes
style = codes "style.css"

abbrev full_style : Bytes
full_style = codes "/web/style.css"

-- One file, of 5 bytes; `age` is the time of its last change.
abbrev one_file : ℕ → Files
unfolding bytes_eq
one_file age = record {
  weakly_canonical = some;
  file_size = λ p. if bytes_eq p full_style then some 5 else none;
  last_write_time = λ p. if bytes_eq p full_style then some (negsuc age) else none;
  contents = λ p. if bytes_eq p full_style then some (codes "a { }") else none;
}

css : mime_for full_style ≡ codes "text/css; charset=utf-8"
unfolding mime_for extension bytes_eq
css = refl

dotted_folder : mime_for (codes "/a.css/readme") ≡ codes "application/octet-stream"
unfolding mime_for extension bytes_eq
dotted_folder = refl

-- The test of the prefix takes a folder whose name begins with the root's for one below it.
sibling : outside (codes "/web-old/x") web ≡ false
unfolding outside bytes_eq
sibling = refl

style_sent : status_of (file_response (one_file 9) web style []) ≡ 200
unfolding file_response path_join has_filename outside answer_file etag_of i64_to_str to_string
    digits bytes_eq
style_sent = refl

file_response-revalidates_example :
    (status_of
        (file_response (one_file 8) web style (tag_in (file_response (one_file 9) web style [])))
      ≡ 304)
    ↔ (((one_file 8).last_write_time full_style ≡ (one_file 9).last_write_time full_style)
        × (size_or_max ((one_file 8).file_size full_style)
            ≡ size_or_max ((one_file 9).file_size full_style)))
unfolding one_file
file_response-revalidates_example =
    file_response-revalidates (one_file 9) (one_file 8) web style [] style_sent (λ p. refl)
      full_style (unfold path_join in unfold has_filename in refl)
