-- ===== src/Lib.antt =====
-- The administration pages of the Serial Vault, webapp-admin/src: a React application in which an
-- operator manages accounts, signing keys, models, sub-stores and users, and reads the signing log.
--
-- The program. App.js holds the selected account and the lists, picks the page by the path of the
-- window, and hands its properties down. Each page is a component with a state, handlers for its
-- inputs, and callbacks for the answers of the server. The resources under webapp-admin/src/models
-- make the requests, through Ajax.js, which fetches a token before each request that changes
-- something. Utils.js reads paths, tokens, errors and the account in the session storage. A
-- component is modelled as a record for its state and a function for each handler and callback:
-- from the state to the new state, with its requests, redirections and refreshes as effects in
-- order. The server, in Go under service and datastore, is modelled where the pages meet it: its
-- routes and roles, the list of the accounts, and the users down to the tables of the database.
--
-- The files. Messages: components/messages.js. Utils: components/Utils.js and Constants.js, with
-- its children Paths, Roles, Accounts and Errors. Http and Ajax: models/Ajax.js and the library's
-- requests and answers. Resources: the other files of models, one module each. Page: what the pages
-- share, and in its child Saving the answers to the ten forms, which Outcomes prepares. App:
-- App.js, where the session storage and the path stand beside the state and `Pending` is a request
-- without an answer, with the page of each path in its child Pages; App.Session is the current
-- account over all events, beside an abstract one. Startup: index.js, with the local storage and
-- the renderings that wait for their token. Frame: components/Header.js, Footer.js, and
-- AlertBox.js, DialogBox.js, SigningLogFilter.js and SigningLogRow.js (Boxes). Navigation:
-- components/Navigation.js, NavigationUser.js, NavigationSubmenu.js and Index.js. Pagination:
-- components/Pagination.js; `rendered` is the change of the state that `calculatePages` makes while
-- it renders; Pagination.Turning clicks its buttons again and again, and Pagination.Shown follows
-- the rows that are asked for meanwhile. SigningLog: components/SigningLog.js; SigningLog.Screen is
-- this page with its page turner, driven by events. SubstoreList: components/SubstoreList.js and
-- SubstoreForm.js; the sub-store being edited is a place in the list of the properties, as it is
-- the same object there. UserEdit and UserList: components/UserEdit.js, UserList.js and UserRow.js.
-- SystemUser: components/SystemUserForm.js, with the library moment as a parameter; its child Email
-- is the expression for an address, run one character after the other. KeypairPages:
-- components/KeypairAdd.js, KeypairEdit.js, KeypairGenerate.js, KeypairStore.js, Keypair.js with
-- KeypairList.js (Overview) and KeypairStatus.js. AccountPages: components/AccountEdit.js,
-- AccountForm.js (Upload), AccountKeyForm.js (KeyUpload) and AccountList.js (Overview). ModelPages:
-- components/ModelEdit.js, ModelList.js with ModelRow.js (Overview) and ModelAssertion.js. Server:
-- the routes of service/router.go, with the requests of the pages, their paths, and the handlers
-- meant for them; the library gorilla/mux is the parameter `Mux`, of which only the documented
-- choice of a route is used: the first of those added whose method and template fit, and only for
-- addresses whose parts are of letters, digits and the signs that are never escaped or cleaned
-- away. Server.Reply, Server.Auth, Server.Permissions and Server.Accounts: what a handler answers
-- (service/response), whom a request comes from and what is asked of the role (service/auth), the
-- role that each handler wants (the actions.go of the packages under service), and the list of the
-- accounts (service/account); Server.Users and its child Views: the handlers of service/user, with
-- the decoding of a body in Decoding, and the form of a user put against them in Answers, Told and
-- Editing; Server.Menu and Server.Standard put the roles against the requests of the pages.
-- Datastore: the tables of users, links and accounts in PostgreSQL, with each statement of
-- datastore/usermanager.go and accountmanager.go as a function of the tables that returns its error
-- as a value, and `transaction` of datastore/database.go, where `Wire` says whether the database
-- begins a transaction and whether its changes last: a commit that fails may have been done or not.
-- Datastore.Validation: datastore/validator.go and the checks of useradapter.go. Datastore.Users:
-- CreateUser, UpdateUser, DeleteUser, GetUser and the lists, with children on what they keep
-- (Integrity), on failures (Atomic), on deletion (Removal) and on what is read back (Given,
-- Reading). A `Change` is one of the three that alter the users. Common: texts, numbers and values
-- of JavaScript, and lemmas on them. Examples: the theorems at concrete inputs.
--
-- Conventions. A value of JavaScript is a `Value`; reading a property of undefined or null gives
-- undefined here, and the callbacks that would throw there stop before they have an effect: `none`
-- stands for an exception, and the state stays as it was. `JSON.parse`, `jwtDecode`, `encodeURI`
-- and what a browser saves from an address are parameters, and of the server the encoding of JSON,
-- the verification of a token, `strings.ToLower` and the random text of a key. A text is cut at the
-- length of its column where only spaces stand behind, and measured in bytes where Go does. The
-- numbers that a sequence hands out are not given back when a transaction is undone. Numbers are
-- integers or NaN: the identifiers, counts and roles are integers below 2 ^ 53, where the
-- arithmetic of JavaScript is exact. Texts are sequences of code points, not of UTF-16 units, which
-- differ in no comparison made here but the length of a shown name. Properties that objects inherit
-- are not looked up. A request that fails without an answer is one whose answer never comes. A
-- state is set at once, where React may put several changes together. The digits of a number are
-- printed with one more step of fuel than the number, which its digits never exceed; no other
-- function here has fuel: runs of events and of clicks are lists and counts.
--
-- Not modelled. The markup, of which the views keep what is shown and under which condition; the
-- clipboard, files and links of the browser; registerServiceWorker.js, which is generated and whose
-- import is commented out; the handlers of the server in Go but those named above, the set-up of
-- its tables, its factory's SQLite, and the routes of its other routers; and the packaging.
pub mod Common
pub mod Messages
pub mod Http
pub mod Datastore
pub mod Server
pub mod Startup
pub mod Frame
pub mod Utils
pub mod AccountPages
pub mod Navigation
pub mod App
pub mod Examples
pub mod Ajax
pub mod Resources
pub mod ModelPages
pub mod Page
pub mod KeypairPages
pub mod Pagination
pub mod SigningLog
pub mod SubstoreList
pub mod SystemUser
pub mod UserEdit
pub mod UserList
