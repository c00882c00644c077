-- ===== src/Tests/Sidecar.antt =====
-- fzf's label and its pages, and its arguments, on small inputs.
use shell_picker.Base.{
  ◌-◌, ◌≡◌, refl, true, false, ok, is_some, inr, arith, codes, List, All, Bytes, bytes_eq,
}
use shell_picker.Pathutil.Location.{has_prefix}
use shell_picker.Base.Decimal.{decimal}
use shell_picker.Protocol.Types.{cp}
use shell_picker.Callback.Finder.{count_text}
use shell_picker.Fzfsidecar.State.{parse_formatted_label}
use shell_picker.Fzfsidecar.State.Label.{shown, parse_formatted_label-count_text}
use shell_picker.Fzfsidecar.Pages.{Server, get_state}
use shell_picker.Fzfsidecar.Pages.Bounded.{get_state-ends}
use shell_picker.Fzfsidecar.Pages.Exact.{page_of, Serves, expected, get_state-expected}
use shell_picker.Fzf.Options.{OptionsConfig, options_for_platform, all_options}
use shell_picker.Base.Decimal.{decimal, number}
use shell_picker.Fzf.Options.Listen.{IsLocal, options_for_platform-IsLocal}

parse_formatted_label-count_text_example :
    parse_formatted_label (count_text cp 3 10 2) ≡ ok (shown cp 3 10 2)
parse_formatted_label-count_text_example =
    parse_formatted_label-count_text cp 3 10 2 (inr (refl, omega arith)) (omega arith) (omega arith)
      (omega arith)

-- A server whose pages are always full.
abbrev endless : Server
endless = record {
  fetch = λ count offset. ok (record { matched = 5; total = 20000; selected = 100 });
  caller_done = λ count. false;
  cycle_done = λ count. false;
}

get_state-ends_example : is_some (get_state cp endless) ≡ true
get_state-ends_example = get_state-ends cp endless

abbrev honest : Server
honest = record {
  fetch =
      λ count offset. ok (record { matched = 5; total = 200; selected = page_of (150 - offset) });
  caller_done = λ count. false;
  cycle_done = λ count. false;
}

honest-Serves : Serves honest 5 200 150
honest-Serves = record { answers = λ count offset. refl; goes_on = λ count. refl }

get_state-expected_example : get_state cp honest ≡ expected 5 200 150
get_state-expected_example =
    get_state-expected honest 5 200 150 honest-Serves (omega arith) (omega arith) (omega arith)

abbrev listening : OptionsConfig
listening = record {
  picker = cp;
  prompt = codes "> ";
  header = codes "/tmp";
  listen_address = codes "127.0.0.1:8080";
}

abbrev listening_arguments : List Bytes
listening_arguments = all_options listening true false

listening_accepted : options_for_platform listening false ≡ ok listening_arguments
unfolding options_for_platform has_prefix decimal number bytes_eq
listening_accepted = refl

options_for_platform-IsLocal_example : All IsLocal listening_arguments
options_for_platform-IsLocal_example =
    options_for_platform-IsLocal listening false listening_accepted
