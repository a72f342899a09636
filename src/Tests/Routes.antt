-- ===== src/Tests/Routes.antt =====
-- Requests from the route to the answer.
use lens_chat_service.Prelude.{◌≡◌, refl, pos, arith, negsuc, false, none, some, [], ◌∷◌}
use lens_chat_service.GoText.{text, parse_int}
use lens_chat_service.GoText.ParseInt.Decimals.{digits, decimal}
use lens_chat_service.Http.{Json, responding}
use lens_chat_service.Message.Service
use lens_chat_service.Message.Controller.{page_answer, list, list_for_ai}
use lens_chat_service.Message.Controller.Decimals.{list-decimal}
use lens_chat_service.Router.{Access, HttpCall, public_route, patch_message, serve}
use lens_chat_service.Router.Guards.{Guards, serve-Guards}
use lens_chat_service.Router.Shown.{Concludes, Hides, serve-Hides}
use lens_chat_service.Router.Calls.{calls_of, serve-AtMost}
use lens_chat_service.Store.{AtMost}
use lens_chat_service.Router.Faults.{Explains, serve-Explains}
use lens_chat_service.Tests.Fixture.{platform, fresh}
use lens_chat_service.Tests.Requests.{by_header, parse}

abbrev access : Access
access = record {
  auth_disabled = false;
  default_user_id = text "";
  ai_worker_token = text "secret";
  parse = parse;
}

-- Every body asks for the content "bye".
abbrev json : Json
json = record {
  create_channel = λ _ _. none;
  create_message = λ _ _. none;
  create_ai_reply = λ _ _. none;
  update_message = λ _ _. some (text "bye");
  advance_read_cursor = λ _ _. none;
}

abbrev editing : HttpCall
editing = record {
  route = public_route (patch_message (1 ∷ []));
  credentials = by_header;
  worker_token = text "";
  limit = none;
  before_seq = none;
  photographer_id = text "";
  body = text "{}";
}

serve-Guards_example :
    Guards platform json fresh access editing editing.route
      (serve platform json fresh access editing)
serve-Guards_example = serve-Guards platform json fresh access editing

serve-Hides_example : Concludes Hides (serve platform json fresh access editing)
serve-Hides_example = serve-Hides platform json fresh access editing

serve-Explains_example : Explains [] (serve platform json fresh access editing)
serve-Explains_example = serve-Explains platform json fresh access editing

serve-AtMost_example : AtMost (calls_of editing.route) (serve platform json fresh access editing)
serve-AtMost_example = serve-AtMost platform json fresh editing access

page_size : parse_int (text "-30") ≡ some (negsuc 29)
unfolding parse_int
page_size = refl

page_size_too_large : parse_int (text "9223372036854775808") ≡ none
unfolding parse_int
page_size_too_large = refl

page_size_not_a_number : parse_int (text "+1_0") ≡ none
unfolding parse_int
page_size_not_a_number = refl

seventeen : decimal (pos 17) ≡ text "17"
unfolding decimal digits
seventeen = refl

-- Seventeen messages before message 1203.
list-decimal_example :
    (list platform (text "ada") (text "c") (some (decimal (pos 17))) (some (decimal (pos 1203)))
      ≡ responding
          (Service.list platform (text "ada") (text "c") (pos 17) (pos 1203))
          (page_answer platform.hex))
    × (list_for_ai platform
          (text "c")
          (text "bob")
          (some (decimal (pos 17)))
          (some (decimal (pos 1203)))
        ≡ responding
            (Service.list_for_ai platform (text "c") (text "bob") (pos 17) (pos 1203))
            (page_answer platform.hex))
list-decimal_example =
    list-decimal platform (pos 17) (pos 1203) (text "ada") (text "bob") (text "c") (omega arith)
      (omega arith)
